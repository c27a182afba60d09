-- ===== src/Mmu/ReadBack.antt =====
-- What was written is read back, and a write leaves the other bytes alone.
use criscv.Base.{
  ℕ, zero, suc, ◌+◌, ◌-◌, ◌^◌, ◌≤◌, ◌<◌, ◌≡◌, refl, sym, ap, ◌∙◌, arith, true, ◌⊎◌, bit_and, bit_or,
  List, [], ◌∷◌, length, get_or, slice, ok, le→ltb,
}
use mathlib.Core.Path.{ap₂}
use criscv.Base.Bits.{and_mask}
use criscv.Mmu.{
  Mmu, mperm_read, mperm_write, mperm_raw, written, allows, mmu_write_from, mmu_read_into,
}
use criscv.Mmu.Loops.{overlay, within, all_allow, all_allow_intro}
use criscv.Mmu.Transfer.{
  IsValid, after_write, mmu_write_from_lem, mmu_read_into_lem, write_result, read_result,
}

overlay-at :
    (src : List ℕ) (i j : ℕ) (f : ℕ → ℕ)
    → i ≤ j
    → j < i + length src
    → overlay src i f j ≡ get_or src (j - i) 0
overlay-at src i j f lo hi = ground arith

slice-get_or :
    (src : List ℕ) (f : ℕ → ℕ) (i : ℕ)
    → ((k : ℕ) → k < length src → f (i + k) ≡ get_or src k 0)
    → slice f i (length src) ≡ src
slice-get_or [] f i h = refl
slice-get_or (x ∷ src) f i h =
    ap₂ ◌∷◌ (ap f (omega arith) ∙ h 0 (omega arith))
      (slice-get_or src f (i + 1) (λ k hk. ap f (omega arith) ∙ h (suc k) (omega arith)))

pub slice-overlay :
    (src : List ℕ) (i : ℕ) (f : ℕ → ℕ) → slice (overlay src i f) i (length src) ≡ src
slice-overlay src i f =
    slice-get_or src (overlay src i f) i λ k hk.
      let e : i + k - i ≡ k = omega arith in ground (arith, ap (λ (m : ℕ). get_or src m 0) e)

opened_readable : (b : ℕ) → b < 2 → bit_and (bit_or 6 b) mperm_read ≡ mperm_read
opened_readable zero h = refl
opened_readable (suc zero) h = refl
opened_readable (suc (suc b)) h = absurd (omega arith)

-- A byte that may be read, or is read-after-write, may be read once it was written.
pub written_readable :
    (p : ℕ)
    → (bit_and p mperm_raw ≡ mperm_raw) ⊎ (allows p mperm_read ≡ true)
    → allows (written p) mperm_read ≡ true
unfolding written allows
written_readable p h = ground (arith, opened_readable (bit_and p 1), and_mask 1 p)

-- `Opens mmu first n`: each of the `n` bytes from `first` on is readable or read-after-write.
abbrev pub Opens : Mmu → ℕ → ℕ → Type 0
Opens mmu first n =
    (j : ℕ)
    → first ≤ j
    → j < first + n
    → (bit_and (mmu.perm j) mperm_raw ≡ mperm_raw) ⊎ (allows (mmu.perm j) mperm_read ≡ true)

Opens-after_write :
    (mmu : Mmu) (src : List ℕ) (vaddr : ℕ)
    → Opens mmu (vaddr - mmu.base) (length src)
    → all_allow (length src) (vaddr - mmu.base) mperm_read (after_write mmu src vaddr) ≡ true
Opens-after_write mmu src vaddr h =
    let first = vaddr - mmu.base in
    all_allow_intro (length src) first mperm_read (after_write mmu src vaddr) λ j lo hi.
      let here : within first (length src) j ≡ true = ground arith in
      rw here (written_readable (mmu.perm j) (h j lo hi))

pub after_write-IsValid :
    (mmu : Mmu) (src : List ℕ) (vaddr : ℕ) → IsValid mmu → IsValid (after_write mmu src vaddr)
after_write-IsValid mmu src vaddr v = omega arith

-- A range inside the segment.
module _ (mmu : Mmu) (src : List ℕ) (vaddr : ℕ) (lo : mmu.base ≤ vaddr)
    (hi : vaddr + length src ≤ mmu.base + mmu.size) where
  pub write_result-inside :
      all_allow (length src) (vaddr - mmu.base) mperm_write mmu ≡ true
      → write_result mmu src vaddr ≡ (length src, after_write mmu src vaddr)
  unfolding write_result
  write_result-inside allowed =
      rw (le→ltb vaddr mmu.base lo, le→ltb (mmu.base + mmu.size) (vaddr + length src) hi, allowed)

  pub read_result-after_write :
      Opens mmu (vaddr - mmu.base) (length src)
      → read_result (after_write mmu src vaddr) vaddr (length src)
        ≡ (length src, src, after_write mmu src vaddr)
  unfolding read_result
  read_result-after_write opens = rw (
    le→ltb vaddr mmu.base lo,
    le→ltb (mmu.base + mmu.size) (vaddr + length src) hi,
    Opens-after_write mmu src vaddr opens,
    slice-overlay src (vaddr - mmu.base) mmu.bytes,
  )

  module _ (v : IsValid mmu) where
    pub mmu_write_from-inside :
        all_allow (length src) (vaddr - mmu.base) mperm_write mmu ≡ true
        → mmu_write_from mmu src vaddr (length src) ≡ ok (length src, after_write mmu src vaddr)
    mmu_write_from-inside allowed =
        mmu_write_from_lem mmu v src vaddr (omega arith) (omega arith)
        ∙ ap ok (write_result-inside allowed)

    pub mmu_read_into-after_write :
        Opens mmu (vaddr - mmu.base) (length src)
        → mmu_read_into (after_write mmu src vaddr) vaddr (length src)
          ≡ ok (length src, src, after_write mmu src vaddr)
    mmu_read_into-after_write opens =
        mmu_read_into_lem (after_write mmu src vaddr) (after_write-IsValid mmu src vaddr v) vaddr
          (length src) (omega arith) (omega arith)
        ∙ ap ok (read_result-after_write opens)

-- What a successful `mmu_write_from` of at least one byte stored in a well-formed segment,
-- `mmu_read_into` returns from the same address, if each byte there was readable or
-- read-after-write; the address and the size fit in 32 bits.
pub mmu_read_into-mmu_write_from :
    (mmu m : Mmu) (src : List ℕ) (vaddr : ℕ)
    → IsValid mmu
    → vaddr < 2 ^ 32
    → length src < 2 ^ 32
    → 0 < length src
    → Opens mmu (vaddr - mmu.base) (length src)
    → mmu_write_from mmu src vaddr (length src) ≡ ok (length src, m)
    → mmu_read_into m vaddr (length src) ≡ ok (length src, src, m)
unfolding write_result
mmu_read_into-mmu_write_from mmu m src vaddr v hv hn pos opens wrote =
    let e = sym wrote ∙ mmu_write_from_lem mmu v src vaddr hv hn in
    let lo : mmu.base ≤ vaddr = ground arith in
    let hi : vaddr + length src ≤ mmu.base + mmu.size = ground arith in
    let same : m ≡ after_write mmu src vaddr = ground arith in
    rw same (mmu_read_into-after_write mmu src vaddr lo hi v opens)

-- A write to a well-formed segment, successful or not, leaves every byte outside its range, with its
-- permission, as it was; the address and the size fit in 32 bits.
pub mmu_write_from_frame :
    (mmu m : Mmu) (src : List ℕ) (vaddr n addr : ℕ)
    → IsValid mmu
    → vaddr < 2 ^ 32
    → length src < 2 ^ 32
    → mmu_write_from mmu src vaddr (length src) ≡ ok (n, m)
    → mmu.base ≤ addr
    → (addr < vaddr) ⊎ (vaddr + length src ≤ addr)
    → (m.bytes (addr - mmu.base) ≡ mmu.bytes (addr - mmu.base))
      × (m.perm (addr - mmu.base) ≡ mmu.perm (addr - mmu.base))
unfolding write_result
mmu_write_from_frame mmu m src vaddr n addr v hv hn wrote lo out =
    let e = sym wrote ∙ mmu_write_from_lem mmu v src vaddr hv hn in ground arith
