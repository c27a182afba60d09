-- ===== src/Mmu/Allocate.antt =====
-- `mmu_allocate`: blocks in the segment, one above the other.
use criscv.Base.{
  ◌≢◌, ℕ, ◌+◌, ◌-◌, ◌*◌, ◌/◌, ◌%◌, ◌^◌, ◌≤◌, ◌<◌, ◌≡◌, sym, ◌∙◌, arith, leb, if◌then◌else◌,
  Bool-cases, inl, inr, ok, bit_and, lt→ltb, u32, add64,
}
use criscv.Base.Bits.{and_step, and_mask}
use criscv.Mmu.{Mmu, align_size, mmu_allocate}
use criscv.Mmu.Loops.{alter}
use criscv.Mmu.Transfer.{IsValid, mmu_setperm_lem}

and_high_mask : (x : ℕ) → bit_and x 0xfffffff0 ≡ x / 16 % 2 ^ 28 * 16
and_high_mask x = omega (
  arith,
  and_step x 0xfffffff0,
  and_step (x / 2) 0x7ffffff8,
  and_step (x / 2 / 2) 0x3ffffffc,
  and_step (x / 2 / 2 / 2) 0x1ffffffe,
  and_mask 28 (x / 2 / 2 / 2 / 2),
)

-- `(size + 0x0f) & 0xfffffff0` rounds up to a multiple of 16.
align_size_lem : (size : ℕ) → size < 2 ^ 31 → align_size size ≡ (size + 15) / 16 * 16
unfolding align_size
align_size_lem size h = omega (arith, and_high_mask (add64 size 0x0f))

abbrev pub aligned : ℕ → ℕ
aligned size = (size + 15) / 16 * 16

-- 0 where the block would reach the end of the segment, else the old `curr_vaddr`, which moves up
-- by the size rounded up to a multiple of 16; only the permissions of the block's bytes change.
unfoldable pub allocate_result : Mmu → ℕ → ℕ → ℕ × Mmu
allocate_result mmu size p =
    if leb (mmu.base + mmu.size) (mmu.curr_vaddr + aligned size) then (0, mmu) else (
      mmu.curr_vaddr,
      record mmu {
        curr_vaddr = mmu.curr_vaddr + aligned size;
        perm = alter (λ _. p) (mmu.curr_vaddr - mmu.base) size mmu.perm;
      },
    )

module _ (mmu : Mmu) (v : IsValid mmu) where
  -- On a well-formed segment `mmu_allocate` always returns, with the result of `allocate_result`.
  pub mmu_allocate_lem :
      (size p : ℕ) → size < 2 ^ 31 → mmu_allocate mmu size p ≡ ok (allocate_result mmu size p)
  unfolding mmu_allocate allocate_result
  mmu_allocate_lem size p h =
      let curr : u32 mmu.curr_vaddr ≡ mmu.curr_vaddr = omega arith in
      let top : add64 mmu.base mmu.size ≡ mmu.base + mmu.size = omega arith in
      let next = mmu.curr_vaddr + aligned size in
      let sum : add64 mmu.curr_vaddr (aligned size) ≡ next = omega arith in
      elim (Bool-cases (leb (mmu.base + mmu.size) next)) [
        | inl e ↦ rw (align_size_lem size h, curr, top, sum, e)
        | inr e ↦
            let room : next < mmu.base + mmu.size = ground arith in
            let m = record mmu { curr_vaddr = next } in
            let valid : IsValid (record mmu { curr_vaddr = mmu.curr_vaddr + aligned size }) =
              omega arith in
            rw (
              align_size_lem size h,
              curr,
              top,
              sum,
              e,
              lt→ltb (aligned size) next (omega arith),
              mmu_setperm_lem m valid mmu.curr_vaddr size p v.curr_low (omega arith),
            )
      ]

-- Two blocks smaller than 2 ^ 31 that were allocated one after the other from a well-formed segment,
-- neither at address 0, lie in the segment and do not overlap, and the segment stays well-formed.
pub mmu_allocate_disjoint :
    (mmu m m' : Mmu) (size size' p p' a b : ℕ)
    → IsValid mmu
    → size < 2 ^ 31
    → size' < 2 ^ 31
    → mmu_allocate mmu size p ≡ ok (a, m)
    → mmu_allocate m size' p' ≡ ok (b, m')
    → a ≢ 0
    → b ≢ 0
    → (mmu.base ≤ a) × (a + size ≤ b) × (b + size' < mmu.base + mmu.size) × IsValid m'
unfolding allocate_result
mmu_allocate_disjoint mmu m m' size size' p p' a b v hs hs' one two na nb =
    let e = sym one ∙ mmu_allocate_lem mmu v size p hs in
    let valid : IsValid m = ground arith in
    let e' = sym two ∙ mmu_allocate_lem m valid size' p' hs' in ground arith
