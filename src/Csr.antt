-- ===== src/Csr.antt =====
-- src/csr.h and src/csr.c: the control and status registers of a core, and their device on the
-- bus, which answers no access.
pub mod Access
use criscv.Base.{
  ℕ, ◌-◌, ◌^◌, bit_and, bit_or, ltb, u32, u64, update, List, Result, ok, out_of_bounds, require,
  ◌>>◌,
}
use criscv.Config.{ram_start, csr_mmap_base_addr}
use criscv.Mmio.{MmioDevice, AccessWidth, ready, error, csr_mmio}

-- `csr_address_t`
abbrev pub mstatus : ℕ
mstatus = 0x300

abbrev pub misa : ℕ
misa = 0x301

abbrev pub mie : ℕ
mie = 0x304

abbrev pub mtvec : ℕ
mtvec = 0x305

abbrev pub mscratch : ℕ
mscratch = 0x340

abbrev pub mepc : ℕ
mepc = 0x341

abbrev pub mcause : ℕ
mcause = 0x342

abbrev pub mtval : ℕ
mtval = 0x343

abbrev pub mip : ℕ
mip = 0x344

abbrev pub mvendorid : ℕ
mvendorid = 0xF11

abbrev pub marchid : ℕ
marchid = 0xF12

abbrev pub mimpid : ℕ
mimpid = 0xF13

abbrev pub mhartid : ℕ
mhartid = 0xF14

abbrev pub csr_mmode_max : ℕ
csr_mmode_max = 0x1000

-- The member `state` of `csr_t`: `csr_mmode_max` registers of 64 bits.
abbrev pub Csr : Type 0
Csr = ℕ → ℕ

-- Each of the six functions returns the old value and the registers.
unfoldable pub csr_read_write32 : Csr → ℕ → ℕ → Result (ℕ × Csr)
csr_read_write32 csr addr val = do
  require (ltb addr csr_mmode_max) out_of_bounds
  ok (u32 (csr addr), update csr addr val)

unfoldable pub csr_read_set32 : Csr → ℕ → ℕ → Result (ℕ × Csr)
csr_read_set32 csr addr mask = do
  require (ltb addr csr_mmode_max) out_of_bounds
  ok (u32 (csr addr), update csr addr (bit_or (csr addr) mask))

-- `~mask` is a `uint32_t`.
unfoldable pub csr_read_clear32 : Csr → ℕ → ℕ → Result (ℕ × Csr)
csr_read_clear32 csr addr mask = do
  require (ltb addr csr_mmode_max) out_of_bounds
  ok (u32 (csr addr), update csr addr (bit_and (csr addr) (2 ^ 32 - 1 - mask)))

unfoldable pub csr_read_write64 : Csr → ℕ → ℕ → Result (ℕ × Csr)
csr_read_write64 csr addr val = do
  require (ltb addr csr_mmode_max) out_of_bounds
  ok (u64 (csr addr), update csr addr val)

unfoldable pub csr_read_set64 : Csr → ℕ → ℕ → Result (ℕ × Csr)
csr_read_set64 csr addr mask = do
  require (ltb addr csr_mmode_max) out_of_bounds
  ok (u64 (csr addr), update csr addr (bit_or (csr addr) mask))

unfoldable pub csr_read_clear64 : Csr → ℕ → ℕ → Result (ℕ × Csr)
csr_read_clear64 csr addr mask = do
  require (ltb addr csr_mmode_max) out_of_bounds
  ok (u64 (csr addr), update csr addr (bit_and (csr addr) (2 ^ 64 - 1 - mask)))

unfoldable pub csr_init : Csr → Csr
csr_init csr =
    let a = update csr misa 0x40000100 in
    let b = update (update (update a mvendorid 0x1337) marchid 0x6502) mimpid 0x777 in
    let c = update (update (update b mhartid 0) mstatus 0) mtvec (ram_start - 4) in
    let d = update (update (update c mie 0x888) mip 0) mcause 0 in
    update (update (update d mepc 0) mscratch 0) mtval 0

abbrev pub csr_mmio_device : MmioDevice
csr_mmio_device = record {
  base_address = csr_mmap_base_addr;
  size = 0x1000;
  perm = 3;
  state = ready;
  driver = csr_mmio;
}

unfoldable pub csr_mmio_init : MmioDevice → MmioDevice
csr_mmio_init dev = record dev { state = ready }

-- The value read is 0.
unfoldable pub csr_mmio_read_single : MmioDevice → ℕ → AccessWidth → ℕ × MmioDevice
csr_mmio_read_single dev offs aw = (0, record dev { state = error })

unfoldable pub csr_mmio_write_single : MmioDevice → ℕ → ℕ → AccessWidth → MmioDevice
csr_mmio_write_single dev offs value aw = record dev { state = error }

-- Nothing calls these two: the device sets no pointer to them.
unfoldable pub csr_mmio_read : MmioDevice → ℕ → List ℕ → ℕ → AccessWidth → ℕ × MmioDevice
csr_mmio_read dev offs buf size aw = (0, record dev { state = error })

unfoldable pub csr_mmio_write : MmioDevice → ℕ → List ℕ → ℕ → AccessWidth → ℕ × MmioDevice
csr_mmio_write dev offs buf count aw = (0, record dev { state = error })
