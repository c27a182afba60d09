-- ===== src/Emulator/Stack.antt =====
-- What the macro `push` of src/emulator.c leaves on the guest's stack.
use criscv.Base.{
  slice, ℕ, zero, suc, ◌+◌, ◌-◌, ◌*◌, ◌^◌, ◌<◌, ◌≤◌, ◌≡◌, ◌⊎◌, refl, ap, ◌∙◌, arith, ok, List, [],
  ◌∷◌, length, get_or, update, sub32, true, inr, fun_ext,
}
use criscv.Mmio.{word}
use criscv.Bus.{Bus, bus_write_single}
use criscv.Cpu.State.{Core}
use criscv.Cpu.Store.{stored}
use criscv.Spec.Access.{sw, store_width}
use criscv.Spec.Machine.{Machine, number_at, byte_of, covered, put_bytes, store_size}
use criscv.Memory.{le_value}
use criscv.Bus.Loaded.{number_at-slice}
use criscv.Cpu.Refine.{Layout, Backs}
use criscv.Cpu.Refine.Transfer.{put_at, stored_at, number_at-cong, put_bytes-elsewhere}
use criscv.Emulator.{push, push_all}

-- The four bytes of a word, put together again.
put_bytes-at :
    (a v : ℕ) (memory : ℕ → ℕ) (k : ℕ) → k < 4 → put_bytes a 4 v memory (a + k) ≡ byte_of v (0 + k)
unfolding put_bytes
put_bytes-at a v memory k h =
    let here : covered a 4 (a + k) ≡ true = ground arith in
    let back : a + k - a ≡ 0 + k = omega arith in rw (here, back)

four_bytes : (v : ℕ) → v < 2 ^ 32 → le_value (slice (byte_of v) 0 4) ≡ v
unfolding le_value byte_of
four_bytes v h = omega arith

number_at-put_bytes :
    (a v : ℕ) (memory : ℕ → ℕ) → v < 2 ^ 32 → number_at (put_bytes a 4 v memory) a 4 ≡ v
number_at-put_bytes a v memory h =
    number_at-slice (put_bytes a 4 v memory) (byte_of v) 4 a 0 (put_bytes-at a v memory)
    ∙ four_bytes v h

-- A word elsewhere stays.
number_at-elsewhere :
    (a b v : ℕ) (memory : ℕ → ℕ)
    → (b + 4 ≤ a) ⊎ (a + 4 ≤ b)
    → number_at (put_bytes a 4 v memory) b 4 ≡ number_at memory b 4
number_at-elsewhere a b v memory apart =
    number_at-cong (put_bytes a 4 v memory) memory 4 b
      λ j lo hi. put_bytes-elsewhere a 4 v memory j (ground arith)

-- The memory after `xs` were pushed from the stack pointer `sp` on.
unfoldable pub stacked : Machine → ℕ → List ℕ → Machine
stacked m sp [] = m
stacked m sp (x ∷ xs) = stacked (stored_at m (sp - 4) sw x) (sp - 4) xs

module _ (lay : Layout) where
  push_lem :
      (core : Core) (bus b : Bus) (a x : ℕ)
      → sub32 (core.registers 2) 4 ≡ a
      → bus_write_single bus a x word ≡ ok b
      → push core bus x ≡ ok (record core { registers = update core.registers 2 a }, b)
  unfolding push
  push_lem core bus b a x down put = rw (down, put)

  push-Backs :
      (core : Core) (bus : Bus) (m : Machine) (sp x : ℕ)
      → Backs lay bus m
      → core.registers 2 ≡ sp
      → lay.data_start + 4 ≤ sp
      → sp ≤ lay.data_end
      → x < 2 ^ 32
      → (b : Bus) × (push core bus x
          ≡ ok (record core { registers = update core.registers 2 (sp - 4) }, b))
        × Backs lay b (stored_at m (sp - 4) sw x)
  unfolding store_size store_width
  push-Backs core bus m sp x k at lo hi fits =
      let space = k.valid.in_space in
      let inside = k.data_inside in
      let ends = k.ends in
      let down : sub32 (core.registers 2) 4 ≡ sp - 4 = omega arith in
      let same : stored sw x ≡ x = omega arith in
      let (b, put, good, again) = put_at lay bus m k (sp - 4) sw x (omega arith) (omega arith) in
      (b, push_lem core bus b (sp - 4) x down (rw same at put), again)

  push_all_cons :
      (core c d : Core) (bus b b' : Bus) (x : ℕ) (xs : List ℕ)
      → push core bus x ≡ ok (c, b)
      → push_all c b xs ≡ ok (d, b')
      → push_all core bus (x ∷ xs) ≡ ok (d, b')
  unfolding push_all
  push_all_cons core c d bus b b' x xs first rest = rw (first, rest)

  pub push_all-Backs :
      (xs : List ℕ) (core : Core) (bus : Bus) (m : Machine) (sp : ℕ)
      → Backs lay bus m
      → core.registers 2 ≡ sp
      → lay.data_start + 4 * length xs ≤ sp
      → sp ≤ lay.data_end
      → ((k : ℕ) → k < length xs → get_or xs k 0 < 2 ^ 32)
      → (b : Bus) × (push_all core bus xs
          ≡ ok (record core { registers = update core.registers 2 (sp - 4 * length xs) }, b))
        × Backs lay b (stacked m sp xs)
  unfolding push_all stacked
  push_all-Backs [] core bus m sp k at lo hi fits =
      let same : core.registers ≡ update core.registers 2 (sp - 4 * 0) =
        fun_ext λ j. ground arith in
      (bus, ap (λ (f : ℕ → ℕ). ok (record core { registers = f }, bus)) same, k)
  push_all-Backs (x ∷ xs) core bus m sp k at lo hi fits =
      let c = record core { registers = update core.registers 2 (sp - 4) } in
      let (b, first, again) =
        push-Backs core bus m sp x k at (omega arith) hi (fits 0 (omega arith)) in
      let (b', rest, last) =
        push_all-Backs xs c b (stored_at m (sp - 4) sw x) (sp - 4) again refl (omega arith)
          (omega arith) (λ j h. fits (suc j) (omega arith)) in
      let twice : update c.registers 2 (sp - 4 - 4 * length xs)
          ≡ update core.registers 2 (sp - 4 * suc (length xs)) =
        fun_ext λ j. ground arith in
      (
        b',
        push_all_cons core c
              (record c { registers = update c.registers 2 (sp - 4 - 4 * length xs) }) bus b b' x xs
              first rest
            ∙ ap (λ (f : ℕ → ℕ). ok (record core { registers = f }, b')) twice,
        last,
      )

-- A byte below the pushed words, or from the old stack pointer on, stays.
pub stacked-others :
    (xs : List ℕ) (m : Machine) (sp j : ℕ)
    → 4 * length xs ≤ sp
    → (j < sp - 4 * length xs) ⊎ (sp ≤ j)
    → (stacked m sp xs).memory j ≡ m.memory j
unfolding stacked store_size
stacked-others [] m sp j room out = refl
stacked-others (x ∷ xs) m sp j room out =
    stacked-others xs (stored_at m (sp - 4) sw x) (sp - 4) j (omega arith) (ground arith)
    ∙ put_bytes-elsewhere (sp - 4) 4 x m.memory j (ground arith)

-- Each pushed word stands in its place, the first at the top.
pub number_at-stacked :
    (xs : List ℕ) (m : Machine) (sp k : ℕ)
    → 4 * length xs ≤ sp
    → k < length xs
    → ((i : ℕ) → i < length xs → get_or xs i 0 < 2 ^ 32)
    → number_at (stacked m sp xs).memory (sp - 4 * (k + 1)) 4 ≡ get_or xs k 0
unfolding stacked store_size
number_at-stacked [] m sp k room h fits = absurd (omega arith)
number_at-stacked (x ∷ xs) m sp zero room h fits =
    let top : sp - 4 * (0 + 1) ≡ sp - 4 = omega arith in
    rw top (
      number_at-cong (stacked (stored_at m (sp - 4) sw x) (sp - 4) xs).memory
        (put_bytes (sp - 4) 4 x m.memory) 4 (sp - 4)
        (λ j lo hi. stacked-others xs (stored_at m (sp - 4) sw x) (sp - 4) j (omega arith) (inr lo))
      ∙ number_at-put_bytes (sp - 4) x m.memory (fits 0 (omega arith)))
number_at-stacked (x ∷ xs) m sp (suc k) room h fits =
    let place : sp - 4 * (suc k + 1) ≡ sp - 4 - 4 * (k + 1) = omega arith in
    rw place (
      number_at-stacked xs (stored_at m (sp - 4) sw x) (sp - 4) k (omega arith) (omega arith)
        (λ i lo. fits (suc i) (omega arith)))
