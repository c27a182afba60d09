-- ===== src/Bus/Access.antt =====
-- Single accesses through the bus: they always return with the mutex free, and at an address of
-- the RAM device they do what the segment does.
use criscv.Base.{ℕ, ◌^◌, ◌<◌, ◌≡◌, arith, true, false, none, some, ok, u8, u32}
use criscv.Mmio.{AccessWidth, MmioDevice, ram}
use criscv.Mmu.{Mmu}
use criscv.Mmu.Transfer.{IsValid, write_result, read_result}
use criscv.Memory.{mult, read_value, write_value, read_ram_single, write_ram_single}
use criscv.Memory.Words.{settle, read_ram_single_lem, write_ram_single_lem}
use criscv.Bus.{
  Bus, bus_ok, address_not_found, lock, find, put, bus_find_device, read_at, write_at, may_write,
  dev_read_single, dev_write_single, bus_read_single, bus_write_single,
}

-- The bus after an access to the RAM device at place `i` left the segment as `m`.
abbrev pub settled : Bus → ℕ → MmioDevice → Mmu → Bus
settled bus i dev m = record bus {
  devices = put bus.devices i (settle dev m);
  mmu = m;
  status = bus_ok;
  locked = false;
}

-- The bus after no device was found, and after a device that is not the RAM answered.
abbrev pub missed : Bus → Bus
missed bus = record bus { status = address_not_found; locked = false }

abbrev pub answered : Bus → ℕ → MmioDevice → Bus
answered bus i dev = record bus { devices = put bus.devices i dev; status = bus_ok; locked = false }

pub lock-free : (bus : Bus) → bus.locked ≡ false → lock bus ≡ ok (record bus { locked = true })
unfolding lock
lock-free bus free = rw free

pub bus_find_device-hit :
    (bus : Bus) (a : ℕ) {found : ℕ × MmioDevice}
    → find bus.devices a ≡ some found
    → bus_find_device bus a ≡ (some found, record bus { status = bus_ok })
unfolding bus_find_device
bus_find_device-hit bus a hit = ground arith

pub bus_find_device-miss :
    (bus : Bus) (a : ℕ)
    → find bus.devices a ≡ none
    → bus_find_device bus a ≡ (none, record bus { status = address_not_found })
unfolding bus_find_device
bus_find_device-miss bus a miss = ground arith

module _ (dev : MmioDevice) (bus : Bus) (offs : ℕ) (aw : AccessWidth)
    (is_ram : dev.driver ≡ ram) where
  dev_read_single-ram :
      dev_read_single dev bus offs aw ≡ read_ram_single dev bus.mmu (u8 bus.old_byte) (u32 offs) aw
  unfolding dev_read_single
  dev_read_single-ram = ground arith

  dev_write_single-ram :
      (value : ℕ)
      → dev_write_single dev bus offs value aw ≡ write_ram_single dev bus.mmu (u32 offs) value aw
  unfolding dev_write_single
  dev_write_single-ram value = ground arith

module _ (bus : Bus) (free : bus.locked ≡ false) (v : IsValid bus.mmu) (offs : ℕ)
    (fits : offs < 2 ^ 32) where
  module _ (i : ℕ) (dev : MmioDevice) (hit : find bus.devices offs ≡ some (i, dev))
      (is_ram : dev.driver ≡ ram) where
    pub bus_read_single-ram :
        (aw : AccessWidth)
        → let r = read_result bus.mmu offs (mult aw) in
          bus_read_single bus offs aw
          ≡ ok (read_value aw (u8 bus.old_byte) r.1, settled bus i dev r.2)
    unfolding bus_read_single read_at
    bus_read_single-ram aw =
        let held = record bus { locked = true } in
        let found = record held { status = bus_ok } in
        let narrow : u32 offs ≡ offs = omega arith in
        rw (
          lock-free bus free,
          bus_find_device-hit held offs hit,
          dev_read_single-ram dev found offs aw is_ram,
          narrow,
          read_ram_single_lem dev bus.mmu v offs aw fits (u8 bus.old_byte),
        )

    pub bus_write_single-ram :
        (aw : AccessWidth) (value : ℕ)
        → may_write dev ≡ true
        → bus_write_single bus offs value aw
          ≡ ok (settled bus i dev (write_result bus.mmu (write_value aw value) offs).1)
    unfolding bus_write_single write_at
    bus_write_single-ram aw value w =
        let held = record bus { locked = true } in
        let found = record held { status = bus_ok } in
        let narrow : u32 offs ≡ offs = omega arith in
        rw (
          lock-free bus free,
          bus_find_device-hit held offs hit,
          w,
          dev_write_single-ram dev found offs aw is_ram value,
          narrow,
          write_ram_single_lem dev bus.mmu v offs aw fits value,
        )
