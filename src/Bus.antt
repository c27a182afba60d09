-- ===== src/Bus.antt =====
-- src/bus.h and src/bus.c: the shared bus, a list of devices behind one mutex. The program has one
-- core (`NUMCORES`), so a lock that is already held is held by the caller's own thread.
pub mod Find
pub mod Access
pub mod Total
pub mod Settled
pub mod Bytes
pub mod Loaded
pub mod Burst
pub mod ReadBack
pub mod Failure
pub mod Multiple
pub mod Text
use criscv.Base.{
  ℕ, zero, suc, ◌+◌, Bool, true, false, ◌&&◌, ◌||◌, not, leb, ltb, ◌==◌, if◌then◌else◌, bit_and,
  List, [], ◌∷◌, ◌++◌, map, Option, none, some, u8, u32, u64, add64, Result, ok, stop,
  assert_failed, null_call, out_of_bounds, deadlock, require, ◌>>=◌, ◌>>◌,
}
use criscv.Mmio.{
  AccessWidth, byte, MmioDevice, DeviceState, ready, busy, error, ram, csr_mmio, write_perm,
}
use criscv.Mmu.{Mmu}
use criscv.Memory.{init_ram, read_ram, write_ram, read_ram_single, write_ram_single}
use criscv.Csr.{csr_mmio_init, csr_mmio_read_single, csr_mmio_write_single}

pub data BusStatus : Type 0 where
  bus_ok read_misaligned write_misaligned address_not_found bus_access_denied : BusStatus
  device_failure : BusStatus

-- `bus_t`, whose `mutex` is `locked`. `mmu` is what `user` of the RAM device points to, and so does
-- the `mmu` of the emulator; `old_byte` is the content of an uninitialised local byte.
pub record Bus : Type 0 where
  pub devices : List MmioDevice
  pub locked : Bool
  pub status : BusStatus
  pub mmu : Mmu
  pub old_byte : ℕ

-- The call `dev->init(dev)`.
unfoldable pub init : MmioDevice → MmioDevice
unfolding init_ram csr_mmio_init
init dev = elim dev.driver [ ram ↦ init_ram dev | csr_mmio ↦ csr_mmio_init dev ]

unfoldable pub bus_init : Bus → Bus
unfolding init
bus_init bus = record bus { devices = map init bus.devices; locked = false }

-- `bus_lock_read` and `bus_lock_write`, `bus_unlock_read` and `bus_unlock_write`.
unfoldable pub lock : Bus → Result Bus
lock bus = if bus.locked then stop deadlock else ok (record bus { locked = true })

unfoldable pub unlock : Bus → Bus
unlock bus = record bus { locked = false }

abbrev pub bus_begin_write : Bus → Result Bus
bus_begin_write bus = lock bus

abbrev pub bus_end_write : Bus → Bus
bus_end_write bus = unlock bus

abbrev pub bus_begin_read : Bus → Result Bus
bus_begin_read bus = lock bus

abbrev pub bus_end_read : Bus → Bus
bus_end_read bus = unlock bus

-- The search of `bus_find_device`: the first device that covers the address, with its place. The
-- end of a device is a `uint32_t` sum.
unfoldable pub covers : MmioDevice → ℕ → Bool
covers dev offs = leb dev.base_address offs && ltb offs (u32 (dev.base_address + dev.size))

unfoldable pub find : List MmioDevice → ℕ → Option (ℕ × MmioDevice)
find [] offs = none
find (dev ∷ devs) offs =
    if covers dev offs
    then some (0, dev)
    else elim (find devs offs) [ none ↦ none | some (i, d) ↦ some (suc i, d) ]

unfoldable pub bus_find_device : Bus → ℕ → Option (ℕ × MmioDevice) × Bus
bus_find_device bus offs = elim (find bus.devices offs) [
  | none ↦ (none, record bus { status = address_not_found })
  | some found ↦ (some found, record bus { status = bus_ok })
]

-- What a device function writes through its pointers.
unfoldable pub put : List MmioDevice → ℕ → MmioDevice → List MmioDevice
put [] i dev = []
put (d ∷ ds) zero dev = dev ∷ ds
put (d ∷ ds) (suc i) dev = d ∷ put ds i dev

unfoldable pub update_device : Bus → ℕ → MmioDevice → Mmu → Bus
unfolding put
update_device bus i dev mmu = record bus { devices = put bus.devices i dev; mmu = mmu }

-- The calls through the function pointers. `offs` is narrowed to `uint32_t`, and the CSR device
-- sets no pointer for transfers of several items.
unfoldable pub dev_read_single : MmioDevice → Bus → ℕ → AccessWidth → Result (ℕ × MmioDevice × Mmu)
unfolding csr_mmio_read_single
dev_read_single dev bus offs aw = elim dev.driver [
  | ram ↦ read_ram_single dev bus.mmu (u8 bus.old_byte) (u32 offs) aw
  | csr_mmio ↦ let (r, dev') = csr_mmio_read_single dev (u32 offs) aw in ok (r, dev', bus.mmu)
]

unfoldable pub dev_write_single : MmioDevice → Bus → ℕ → ℕ → AccessWidth → Result (MmioDevice × Mmu)
unfolding csr_mmio_write_single
dev_write_single dev bus offs value aw = elim dev.driver [
  | ram ↦ write_ram_single dev bus.mmu (u32 offs) value aw
  | csr_mmio ↦ ok (csr_mmio_write_single dev (u32 offs) value aw, bus.mmu)
]

unfoldable pub dev_read :
    MmioDevice → Bus → ℕ → ℕ → AccessWidth → Result (ℕ × List ℕ × MmioDevice × Mmu)
dev_read dev bus offs count aw = elim dev.driver [
  | ram ↦ read_ram dev bus.mmu (u32 offs) count aw
  | csr_mmio ↦ stop null_call
]

unfoldable pub dev_write :
    MmioDevice → Bus → ℕ → List ℕ → ℕ → AccessWidth → Result (ℕ × MmioDevice × Mmu)
dev_write dev bus offs src count aw = elim dev.driver [
  | ram ↦ write_ram dev bus.mmu (u32 offs) src count aw
  | csr_mmio ↦ stop null_call
]

abbrev pub is_bus_ok : BusStatus → Bool
is_bus_ok bus_ok = true
is_bus_ok _ = false

abbrev pub may_write : MmioDevice → Bool
may_write dev = bit_and dev.perm write_perm == write_perm

abbrev pub is_ready : DeviceState → Bool
is_ready ready = true
is_ready _ = false

-- Each access locks, looks for the device, and goes on by what the search gave: `none` is the
-- status `BUS_ADDRESS_NOT_FOUND`.
unfoldable pub read_at : Option (ℕ × MmioDevice) → Bus → ℕ → AccessWidth → Result (ℕ × Bus)
unfolding unlock update_device
read_at none bus offs aw = ok (0x0badc0de, bus_end_read bus)
read_at (some (i, dev)) bus offs aw = do
  (r, dev', mmu') ← dev_read_single dev bus offs aw
  ok (r, bus_end_read (update_device bus i dev' mmu'))

unfoldable pub bus_read_single : Bus → ℕ → AccessWidth → Result (ℕ × Bus)
bus_read_single bus offs aw = do
  held ← bus_begin_read bus
  let (found, b) = bus_find_device held offs
  read_at found b offs aw

-- The items read, and the bytes stored at `dst`.
unfoldable pub read_many_at :
    Option (ℕ × MmioDevice) → Bus → ℕ → ℕ → AccessWidth → Result (ℕ × List ℕ × Bus)
unfolding unlock update_device
read_many_at none bus offs count aw = ok (0, [], bus_end_read bus)
read_many_at (some (i, dev)) bus offs count aw = do
  (ret, dst, dev', mmu') ← dev_read dev bus offs count aw
  let b = update_device bus i dev' mmu'
  if ret == count
      then ok (count, dst, bus_end_read b)
      else ok (0, dst, bus_end_read (record b { status = device_failure }))

unfoldable pub bus_read_multiple : Bus → ℕ → ℕ → AccessWidth → Result (ℕ × List ℕ × Bus)
bus_read_multiple bus offs count aw = do
  held ← bus_begin_read bus
  let (found, b) = bus_find_device held offs
  read_many_at found b offs count aw

unfoldable pub write_at : Option (ℕ × MmioDevice) → Bus → ℕ → ℕ → AccessWidth → Result Bus
unfolding unlock update_device
write_at none bus offs value aw = ok (bus_end_write bus)
write_at (some (i, dev)) bus offs value aw = do
  require (may_write dev) assert_failed
  (dev', mmu') ← dev_write_single dev bus offs value aw
  ok (bus_end_write (update_device bus i dev' mmu'))

unfoldable pub bus_write_single : Bus → ℕ → ℕ → AccessWidth → Result Bus
bus_write_single bus offs value aw = do
  held ← bus_begin_write bus
  let (found, b) = bus_find_device held offs
  write_at found b offs value aw

-- A device failure returns with the mutex held.
unfoldable pub write_many_at :
    Option (ℕ × MmioDevice) → Bus → ℕ → List ℕ → ℕ → AccessWidth → Result (ℕ × Bus)
unfolding unlock update_device
write_many_at none bus offs src count aw = ok (0, bus_end_write bus)
write_many_at (some (i, dev)) bus offs src count aw = do
  require (may_write dev) assert_failed
  require (is_ready dev.state) assert_failed
  (ret, dev', mmu') ← dev_write dev bus offs src count aw
  let b = update_device bus i dev' mmu'
  if ret == count
      then ok (count, bus_end_write (record b { status = bus_ok }))
      else ok (0, record b { status = device_failure })

unfoldable pub bus_write_multiple : Bus → ℕ → List ℕ → ℕ → AccessWidth → Result (ℕ × Bus)
bus_write_multiple bus offs src count aw = do
  held ← bus_begin_write bus
  let (found, b) = bus_find_device held offs
  write_many_at found b offs src count aw

-- The loop of `bus_read_string` at index `i`, with the room that is left at `dst`.
unfoldable pub string_loop : Bus → ℕ → ℕ → ℕ → Result (List ℕ × Bus)
string_loop bus offs i zero = do _ ← bus_read_single bus (add64 offs i) byte; stop out_of_bounds
string_loop bus offs i (suc room) = do
  (r, b) ← bus_read_single bus (add64 offs i) byte
  let again = string_loop b offs (i + 1) room
  if (u8 r == 0) || not (is_bus_ok b.status)
      then ok (u8 r ∷ [], b)
      else again >>= λ rest. ok (u8 r ∷ rest.0, rest.1)

-- The text read to `dst`, which has `room` bytes.
unfoldable pub bus_read_string : Bus → ℕ → ℕ → Result (List ℕ × Bus)
bus_read_string bus offs room = do require (ltb 0 room) out_of_bounds; string_loop bus offs 0 room
