-- ===== src/Memory.antt =====
-- src/memory.h and src/memory.c: the RAM device, which hands accesses over to the memory segment.
-- The host is little-endian, so a C integer is stored with its low byte first.
pub mod Words
use criscv.Base.{
  ℕ, zero, suc, ◌+◌, ◌*◌, ◌/◌, ◌%◌, bit_and, Bool, true, false, ◌&&◌, ◌==◌, if◌then◌else◌, List, [],
  ◌∷◌, Result, ok, ◌>>=◌, u64,
}
use criscv.Mmio.{AccessWidth, byte, halfword, word, MmioDevice, ready, busy, error}
use criscv.Mmu.{Mmu, MmuState, mmu_ok, mmu_write_from, mmu_read_into}

unfoldable pub init_ram : MmioDevice → MmioDevice
init_ram ram = record ram { state = ready }

-- The bytes of an integer of `n` bytes, and the integer of some bytes.
unfoldable pub le_bytes : ℕ → ℕ → List ℕ
le_bytes zero value = []
le_bytes (suc n) value = value % 256 ∷ le_bytes n (value / 256)

unfoldable pub le_value : List ℕ → ℕ
le_value [] = 0
le_value (x ∷ xs) = x + 256 * le_value xs

abbrev pub is_mmu_ok : MmuState → Bool
is_mmu_ok mmu_ok = true
is_mmu_ok _ = false

-- The local `mult` of both transfers.
abbrev pub mult : AccessWidth → ℕ
mult word = 4
mult halfword = 2
mult byte = 1

-- The number of BYTES written, and 0 on a fault.
unfoldable pub write_ram :
    MmioDevice → Mmu → ℕ → List ℕ → ℕ → AccessWidth → Result (ℕ × MmioDevice × Mmu)
write_ram ram mmu offs buf count aw = do
  (ret, m) ← mmu_write_from mmu buf offs (u64 (count * mult aw))
  ok (
      if is_mmu_ok m.state
      then (ret, record ram { state = ready }, m)
      else (0, record ram { state = error }, m))

-- The number of ITEMS read, 0 on a fault, and what was read.
unfoldable pub read_ram :
    MmioDevice → Mmu → ℕ → ℕ → AccessWidth → Result (ℕ × List ℕ × MmioDevice × Mmu)
read_ram ram mmu offs count aw = do
  (ret, buf, m) ← mmu_read_into mmu offs (u64 (count * mult aw))
  ok (
      if is_mmu_ok m.state && (ret == u64 (count * mult aw))
      then (count, buf, record ram { state = ready }, m)
      else (0, buf, record ram { state = error }, m))

-- The value of the local `ret` after the read: for words and halfwords it begins as 0; for a byte
-- it is not initialised, and `old` is what it holds.
unfoldable pub read_value : AccessWidth → ℕ → List ℕ → ℕ
unfolding le_value
read_value byte old [] = old
read_value byte old (x ∷ xs) = x
read_value halfword old buf = le_value buf
read_value word old buf = le_value buf

unfoldable pub read_ram_single :
    MmioDevice → Mmu → ℕ → ℕ → AccessWidth → Result (ℕ × MmioDevice × Mmu)
unfolding read_value
read_ram_single ram mmu old offs aw = do
  (_, buf, ram', m) ← read_ram ram mmu offs 1 aw
  ok (read_value aw old buf, ram', m)

-- The local `val`, as its bytes.
unfoldable pub write_value : AccessWidth → ℕ → List ℕ
unfolding le_bytes
write_value word value = le_bytes 4 value
write_value halfword value = le_bytes 2 (bit_and value 0xffff)
write_value byte value = le_bytes 1 (bit_and value 0xff)

unfoldable pub write_ram_single : MmioDevice → Mmu → ℕ → ℕ → AccessWidth → Result (MmioDevice × Mmu)
unfolding write_value
write_ram_single ram mmu offs value aw = do
  (_, ram', m) ← write_ram ram mmu offs (write_value aw value) 1 aw
  ok (ram', m)
