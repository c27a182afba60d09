-- ===== src/Csr/Access.antt =====
-- What the accesses to the registers return and leave.
use criscv.Base.{
  ℕ, ◌-◌, ◌%◌, ◌^◌, ◌<◌, ◌≡◌, ◌≢◌, refl, arith, bit_and, bit_or, u32, u64, update, ok, lt→ltb,
  eq→==,
}
use criscv.Base.Bits.{and_mask}
use criscv.Csr.{
  Csr, csr_mmode_max, csr_read_write32, csr_read_set32, csr_read_clear32, csr_read_write64,
  csr_read_set64, csr_read_clear64,
}

-- A value written to a register of the 4096, of 32 bits or of 64, is what the accesses of that width
-- read there next, with nothing to set or to clear; every other register is as it was, and the write
-- returns the low bits, as many as its width has, of the value before.
pub csr_read-csr_read_write :
    (csr : Csr) (addr val val' : ℕ)
    → addr < csr_mmode_max
    → val < 2 ^ 32
    → val' < 2 ^ 64
    → (c : Csr) × (c' : Csr) × (csr_read_write32 csr addr val ≡ ok (u32 (csr addr), c))
      × (csr_read_write64 csr addr val' ≡ ok (u64 (csr addr), c'))
      × ((d : Csr) × (csr_read_set32 c addr 0 ≡ ok (val, d)))
      × ((d : Csr) × (csr_read_clear32 c addr 0 ≡ ok (val, d)))
      × ((d : Csr) × (csr_read_set64 c' addr 0 ≡ ok (val', d)))
      × ((d : Csr) × (csr_read_clear64 c' addr 0 ≡ ok (val', d)))
      × ((i : ℕ) → i ≢ addr → (c i ≡ csr i) × (c' i ≡ csr i))
unfolding csr_read_write32 csr_read_set32 csr_read_clear32 csr_read_write64 csr_read_set64
    csr_read_clear64
csr_read-csr_read_write csr addr val val' h h32 h64 =
    let c = update csr addr val in
    let c' = update csr addr val' in
    let here = eq→== addr addr refl in
    let low : u32 val ≡ val = omega arith in
    let low' : u64 val' ≡ val' = omega arith in
    let inside = lt→ltb addr csr_mmode_max h in
    (
      c,
      c',
      rw inside,
      rw inside,
      (update c addr (bit_or (c addr) 0), rw (inside, here, low)),
      (update c addr (bit_and (c addr) (2 ^ 32 - 1 - 0)), rw (inside, here, low)),
      (update c' addr (bit_or (c' addr) 0), rw (inside, here, low')),
      (update c' addr (bit_and (c' addr) (2 ^ 64 - 1 - 0)), rw (inside, here, low')),
      λ i other. ground arith,
    )

-- With no bits to clear, the access of 32 bits clears the upper half of a register all
-- the same, and the access of 64 bits leaves the register as it was, for a register of the 4096 that
-- holds 64 bits; each returns the low bits, as many as its width has, of the value before.
pub csr_read_clear_upper :
    (csr : Csr) (addr : ℕ)
    → addr < csr_mmode_max
    → csr addr < 2 ^ 64
    → (c : Csr) × (c' : Csr) × (csr_read_clear32 csr addr 0 ≡ ok (u32 (csr addr), c))
      × (csr_read_clear64 csr addr 0 ≡ ok (csr addr, c'))
      × (c addr ≡ csr addr % 2 ^ 32)
      × (c' addr ≡ csr addr)
unfolding csr_read_clear32 csr_read_clear64
csr_read_clear_upper csr addr h small =
    let inside = lt→ltb addr csr_mmode_max h in
    let here = eq→== addr addr refl in
    let whole : u64 (csr addr) ≡ csr addr = omega arith in
    (
      update csr addr (bit_and (csr addr) (2 ^ 32 - 1 - 0)),
      update csr addr (bit_and (csr addr) (2 ^ 64 - 1 - 0)),
      rw inside,
      rw (inside, whole),
      rw (here, and_mask 32 (csr addr)),
      rw (here, and_mask 64 (csr addr), whole),
    )
