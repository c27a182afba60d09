-- ===== src/Mmu/Loops.antt =====
-- The loops of src/mmu.c inside their arrays: each ends, and does to a range of its array what the
-- body does to one element.
use criscv.Base.{
  ℕ, zero, suc, ◌+◌, ◌-◌, ◌≤◌, ◌<◌, ◌≡◌, refl, sym, ap, ◌∙◌, fun_ext, arith, Bool, true, false,
  ◌&&◌, ltb, leb, if◌then◌else◌, Bool-cases, inl, inr, List, [], ◌∷◌, length, get_or, slice, update,
  ok, lt→ltb,
}
use criscv.Mmu.{
  Mmu, setperm_loop, check_loop, copy_in, copy_out, perms_loop, dirty_loop, written, allows,
}

-- Whether index `j` is one of the `n` from `i` on.
abbrev pub within : ℕ → ℕ → ℕ → Bool
within i n j = leb i j && ltb j (i + n)

-- An array with the `n` elements from `i` on changed by `g`.
abbrev pub alter {ℓ} : {A : Type ℓ} → (A → A) → ℕ → ℕ → (ℕ → A) → ℕ → A
alter g i n f j = if within i n j then g (f j) else f j

-- An array with a list laid over it from index `i` on.
abbrev pub overlay : List ℕ → ℕ → (ℕ → ℕ) → ℕ → ℕ
overlay src i f j = if within i (length src) j then get_or src (j - i) 0 else f j

-- Changing one element and then those above it.
alter-update {ℓ} :
    {A : Type ℓ} (g : A → A) (i n : ℕ) (f : ℕ → A)
    → alter g (i + 1) n (update f i (g (f i))) ≡ alter g i (suc n) f
alter-update g i n f = fun_ext λ j. ground arith

stay : (i j : ℕ) → j ≡ i → j - i ≡ 0
stay i j h = omega arith

head_at : (x : ℕ) (src : List ℕ) (i j : ℕ) → j ≡ i → get_or (x ∷ src) (j - i) 0 ≡ x
head_at x src i j h = ap (λ (m : ℕ). get_or (x ∷ src) m 0) (stay i j h)

get_or-cons : (x k : ℕ) (src : List ℕ) → 0 < k → get_or (x ∷ src) k 0 ≡ get_or src (k - 1) 0
get_or-cons x zero src h = absurd (omega arith)
get_or-cons x (suc k) src h = ap (λ (m : ℕ). get_or src m 0) (omega arith)

alter-none {ℓ} : {A : Type ℓ} (g : A → A) (i : ℕ) (f : ℕ → A) → alter g i 0 f ≡ f
alter-none g i f = fun_ext λ j. ground arith

overlay-nil : (i : ℕ) (f : ℕ → ℕ) → overlay [] i f ≡ f
overlay-nil i f = fun_ext λ j. ground arith

overlay-update :
    (x : ℕ) (src : List ℕ) (i : ℕ) (f : ℕ → ℕ)
    → overlay src (i + 1) (update f i x) ≡ overlay (x ∷ src) i f
overlay-update x src i f = fun_ext λ j.
    let e : j - (i + 1) ≡ j - i - 1 = omega arith in
    ground (arith, get_or-cons x (j - i) src, ap (λ (m : ℕ). get_or src m 0) e, head_at x src i j)

pub setperm_loop_lem :
    (n i p : ℕ) (mmu : Mmu)
    → i + n ≤ mmu.perm_len
    → setperm_loop n i p mmu ≡ ok (record mmu { perm = alter (λ _. p) i n mmu.perm })
unfolding setperm_loop
setperm_loop_lem zero i p mmu h =
    ap (λ (q : ℕ → ℕ). ok (record mmu { perm = q })) (sym (alter-none (λ _. p) i mmu.perm))
setperm_loop_lem (suc n) i p mmu h = rw (lt→ltb i mmu.perm_len (omega arith)) (
    setperm_loop_lem n (i + 1) p (record mmu { perm = update mmu.perm i p }) (omega arith)
    ∙ ap (λ (q : ℕ → ℕ). ok (record mmu { perm = q })) (alter-update (λ _. p) i n mmu.perm))

pub perms_loop_lem :
    (n i : ℕ) (mmu : Mmu)
    → i + n ≤ mmu.perm_len
    → perms_loop n i mmu ≡ ok (record mmu { perm = alter written i n mmu.perm })
unfolding perms_loop
perms_loop_lem zero i mmu h =
    ap (λ (q : ℕ → ℕ). ok (record mmu { perm = q })) (sym (alter-none written i mmu.perm))
perms_loop_lem (suc n) i mmu h =
    let m = record mmu { perm = update mmu.perm i (written (mmu.perm i)) } in
    rw (lt→ltb i mmu.perm_len (omega arith)) (
      perms_loop_lem n (i + 1) m (omega arith)
      ∙ ap (λ (q : ℕ → ℕ). ok (record mmu { perm = q })) (alter-update written i n mmu.perm))

pub dirty_loop_lem :
    (n i : ℕ) (mmu : Mmu)
    → i + n ≤ mmu.dirty_len
    → dirty_loop n i mmu ≡ ok (record mmu { dirty = alter (λ _. true) i n mmu.dirty })
unfolding dirty_loop
dirty_loop_lem zero i mmu h =
    ap (λ (q : ℕ → Bool). ok (record mmu { dirty = q })) (sym (alter-none (λ _. true) i mmu.dirty))
dirty_loop_lem (suc n) i mmu h = rw (lt→ltb i mmu.dirty_len (omega arith)) (
    dirty_loop_lem n (i + 1) (record mmu { dirty = update mmu.dirty i true }) (omega arith)
    ∙ ap (λ (q : ℕ → Bool). ok (record mmu { dirty = q })) (alter-update (λ _. true) i n mmu.dirty))

pub copy_in_lem :
    (i : ℕ) (src : List ℕ) (mmu : Mmu)
    → i + length src ≤ mmu.bytes_len
    → copy_in (length src) i src mmu ≡ ok (record mmu { bytes = overlay src i mmu.bytes })
unfolding copy_in
copy_in_lem i [] mmu h =
    ap (λ (q : ℕ → ℕ). ok (record mmu { bytes = q })) (sym (overlay-nil i mmu.bytes))
copy_in_lem i (x ∷ src) mmu h = rw (lt→ltb i mmu.bytes_len (omega arith)) (
    copy_in_lem (i + 1) src (record mmu { bytes = update mmu.bytes i x }) (omega arith)
    ∙ ap (λ (q : ℕ → ℕ). ok (record mmu { bytes = q })) (overlay-update x src i mmu.bytes))

pub copy_out_lem :
    (n i : ℕ) (mmu : Mmu) → i + n ≤ mmu.bytes_len → copy_out n i mmu ≡ ok (slice mmu.bytes i n)
unfolding copy_out
copy_out_lem zero i mmu h = refl
copy_out_lem (suc n) i mmu h =
    rw (lt→ltb i mmu.bytes_len (omega arith), copy_out_lem n (i + 1) mmu (omega arith))

-- Whether all of the `n` bytes from `i` on allow the access.
unfoldable pub all_allow : ℕ → ℕ → ℕ → Mmu → Bool
all_allow zero i perm mmu = true
all_allow (suc n) i perm mmu = allows (mmu.perm i) perm && all_allow n (i + 1) perm mmu

pub check_loop_lem :
    (n i perm : ℕ) (mmu : Mmu)
    → i + n ≤ mmu.perm_len
    → check_loop n i perm mmu ≡ ok (all_allow n i perm mmu)
unfolding check_loop all_allow
check_loop_lem zero i perm mmu h = refl
check_loop_lem (suc n) i perm mmu h = elim (Bool-cases (allows (mmu.perm i) perm)) [
  | inl e ↦
      rw (lt→ltb i mmu.perm_len (omega arith), e) (check_loop_lem n (i + 1) perm mmu (omega arith))
  | inr e ↦ rw (lt→ltb i mmu.perm_len (omega arith), e)
]

-- It holds exactly if each of them does.
pub all_allow-at :
    (n i perm : ℕ) (mmu : Mmu) (j : ℕ)
    → all_allow n i perm mmu ≡ true
    → i ≤ j
    → j < i + n
    → allows (mmu.perm j) perm ≡ true
unfolding all_allow
all_allow-at zero i perm mmu j e lo hi = absurd (omega arith)
all_allow-at (suc n) i perm mmu j e lo hi = ground (arith, all_allow-at n (i + 1) perm mmu j)

pub all_allow_intro :
    (n i perm : ℕ) (mmu : Mmu)
    → ((j : ℕ) → i ≤ j → j < i + n → allows (mmu.perm j) perm ≡ true)
    → all_allow n i perm mmu ≡ true
unfolding all_allow
all_allow_intro zero i perm mmu h = refl
all_allow_intro (suc n) i perm mmu h = rw (
  h i (omega arith) (omega arith),
  all_allow_intro n (i + 1) perm mmu (λ j lo hi. h j (omega arith) (omega arith)),
)

-- A first byte that does not decides it.
pub all_allow-deny :
    (n i perm : ℕ) (mmu : Mmu)
    → 0 < n
    → allows (mmu.perm i) perm ≡ false
    → all_allow n i perm mmu ≡ false
unfolding all_allow
all_allow-deny zero i perm mmu h e = absurd (omega arith)
all_allow-deny (suc n) i perm mmu h e = rw e
