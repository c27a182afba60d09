-- ===== src/Bus/Total.antt =====
-- Single accesses at any address, and a load after a store.
use criscv.Base.{
  ℕ, ◌^◌, ◌<◌, ◌≡◌, refl, arith, true, false, Option, none, some, Result, ok, if◌then◌else◌, u8,
  Bool-cases, inl, inr, stop, assert_failed,
}
use criscv.Mmio.{AccessWidth, MmioDevice, Driver, ram, csr_mmio, error}
use criscv.Csr.{csr_mmio_read_single, csr_mmio_write_single}
use criscv.Mmu.Transfer.{IsValid, write_result, read_result}
use criscv.Memory.{mult, read_value, write_value}
use criscv.Bus.{
  Bus, find, read_at, write_at, may_write, dev_read_single, dev_write_single, bus_read_single,
  bus_write_single,
}
use criscv.Bus.Access.{
  settled, lock-free, bus_find_device-hit, bus_find_device-miss, bus_read_single-ram,
  bus_write_single-ram, missed, answered,
}

-- What a load gives and leaves, by the device that was found.
unfoldable pub load_hit : Driver → Bus → ℕ → MmioDevice → ℕ → AccessWidth → ℕ × Bus
load_hit ram bus i dev offs aw =
    let r = read_result bus.mmu offs (mult aw) in
    (read_value aw (u8 bus.old_byte) r.1, settled bus i dev r.2)
load_hit csr_mmio bus i dev offs aw = (0, answered bus i (record dev { state = error }))

unfoldable pub load_result : Option (ℕ × MmioDevice) → Bus → ℕ → AccessWidth → ℕ × Bus
load_result none bus offs aw = (0x0badc0de, missed bus)
load_result (some (i, dev)) bus offs aw = load_hit dev.driver bus i dev offs aw

-- What a store leaves; a device that may not be written stops the program.
unfoldable pub store_hit : Driver → Bus → ℕ → MmioDevice → ℕ → ℕ → AccessWidth → Bus
store_hit ram bus i dev offs value aw =
    settled bus i dev (write_result bus.mmu (write_value aw value) offs).1
store_hit csr_mmio bus i dev offs value aw = answered bus i (record dev { state = error })

unfoldable pub store_result : Option (ℕ × MmioDevice) → Bus → ℕ → ℕ → AccessWidth → Result Bus
store_result none bus offs value aw = ok (missed bus)
store_result (some (i, dev)) bus offs value aw =
    if may_write dev then ok (store_hit dev.driver bus i dev offs value aw) else stop assert_failed

module _ (bus : Bus) (free : bus.locked ≡ false) (v : IsValid bus.mmu) (offs : ℕ)
    (fits : offs < 2 ^ 32) (aw : AccessWidth) where
  read_hit :
      (i : ℕ) (dev : MmioDevice) (d : Driver)
      → find bus.devices offs ≡ some (i, dev)
      → dev.driver ≡ d
      → bus_read_single bus offs aw ≡ ok (load_hit d bus i dev offs aw)
  unfolding load_hit bus_read_single read_at dev_read_single csr_mmio_read_single
  read_hit i dev ram hit e = bus_read_single-ram bus free v offs fits i dev hit e aw
  read_hit i dev csr_mmio hit e =
      rw (lock-free bus free, bus_find_device-hit (record bus { locked = true }) offs hit)
        (ground arith)

  read_found :
      (o : Option (ℕ × MmioDevice))
      → find bus.devices offs ≡ o
      → bus_read_single bus offs aw ≡ ok (load_result o bus offs aw)
  unfolding load_result
  read_found none miss =
      unfold bus_read_single read_at in
      rw (lock-free bus free, bus_find_device-miss (record bus { locked = true }) offs miss)
  read_found (some (i, dev)) hit = read_hit i dev dev.driver hit refl

  -- With the mutex free and the segment well-formed, a load at a 32-bit address returns: 0x0badc0de
  -- and the status `BUS_ADDRESS_NOT_FOUND` where no device answers, 0 from the CSR device, and from
  -- the RAM device what the segment holds there; with a device the status is `BUS_OK` even where
  -- the segment refused the read. The mutex is free again.
  pub bus_read_single_lem :
      bus_read_single bus offs aw ≡ ok (load_result (find bus.devices offs) bus offs aw)
  bus_read_single_lem = read_found (find bus.devices offs) refl

  write_hit :
      (i : ℕ) (dev : MmioDevice) (d : Driver) (value : ℕ)
      → find bus.devices offs ≡ some (i, dev)
      → dev.driver ≡ d
      → may_write dev ≡ true
      → bus_write_single bus offs value aw ≡ ok (store_hit d bus i dev offs value aw)
  unfolding store_hit bus_write_single write_at dev_write_single csr_mmio_write_single
  write_hit i dev ram value hit e w =
      bus_write_single-ram bus free v offs fits i dev hit e aw value w
  write_hit i dev csr_mmio value hit e w =
      rw (lock-free bus free, bus_find_device-hit (record bus { locked = true }) offs hit, w)
        (ground arith)

  write_denied :
      (i : ℕ) (dev : MmioDevice) (value : ℕ)
      → find bus.devices offs ≡ some (i, dev)
      → may_write dev ≡ false
      → bus_write_single bus offs value aw ≡ stop assert_failed
  unfolding bus_write_single write_at
  write_denied i dev value hit w =
      rw (lock-free bus free, bus_find_device-hit (record bus { locked = true }) offs hit, w)

  write_found :
      (o : Option (ℕ × MmioDevice)) (value : ℕ)
      → find bus.devices offs ≡ o
      → bus_write_single bus offs value aw ≡ store_result o bus offs value aw
  unfolding store_result
  write_found none value miss =
      unfold bus_write_single write_at in
      rw (lock-free bus free, bus_find_device-miss (record bus { locked = true }) offs miss)
  write_found (some (i, dev)) value hit = elim (Bool-cases (may_write dev)) [
    | inl w ↦ rw w (write_hit i dev dev.driver value hit refl w)
    | inr w ↦ rw w (write_denied i dev value hit w)
  ]

  -- With the mutex free and the segment well-formed, a store at a 32-bit address changes only the
  -- status where no device answers, fails the assertion where the device may not be written, and
  -- else leaves the CSR device in its error state, or writes the RAM device's segment as
  -- `write_result` says, refusals included; then the status is `BUS_OK`. The mutex is free again.
  pub bus_write_single_lem :
      (value : ℕ)
      → bus_write_single bus offs value aw ≡ store_result (find bus.devices offs) bus offs value aw
  bus_write_single_lem value = write_found (find bus.devices offs) value refl
