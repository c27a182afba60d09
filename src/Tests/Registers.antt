-- ===== src/Tests/Registers.antt =====
-- The theorems on src/csr.c, applied to registers that all hold the same value.
use criscv.Base.{ℕ, ◌≡◌, ◌≢◌, arith, ok}
use criscv.Csr.{
  Csr, mscratch, csr_read_write32, csr_read_write64, csr_read_set32, csr_read_clear32,
  csr_read_set64, csr_read_clear64,
}
use criscv.Csr.Access.{csr_read-csr_read_write}

abbrev sample_csr : Csr
sample_csr i = 0x123456789

csr_read-csr_read_write_example :
    (c : Csr) × (c' : Csr) × (csr_read_write32 sample_csr mscratch 5 ≡ ok (0x23456789, c))
    × (csr_read_write64 sample_csr mscratch 0x700000006 ≡ ok (0x123456789, c'))
    × ((d : Csr) × (csr_read_set32 c mscratch 0 ≡ ok (5, d)))
    × ((d : Csr) × (csr_read_clear32 c mscratch 0 ≡ ok (5, d)))
    × ((d : Csr) × (csr_read_set64 c' mscratch 0 ≡ ok (0x700000006, d)))
    × ((d : Csr) × (csr_read_clear64 c' mscratch 0 ≡ ok (0x700000006, d)))
    × ((i : ℕ) → i ≢ mscratch → (c i ≡ 0x123456789) × (c' i ≡ 0x123456789))
csr_read-csr_read_write_example =
    csr_read-csr_read_write sample_csr mscratch 5 0x700000006 (omega arith) (omega arith)
      (omega arith)
