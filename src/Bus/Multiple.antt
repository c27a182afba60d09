-- ===== src/Bus/Multiple.antt =====
-- Reads of several items from the RAM device.
use criscv.Base.{
  ℕ, ◌+◌, ◌-◌, ◌*◌, ◌^◌, ◌<◌, ◌≤◌, ◌≡◌, refl, arith, true, false, some, slice, ok, u32, u64, eq→==,
  le→ltb,
}
use criscv.Mmio.{AccessWidth, MmioDevice, ram}
use criscv.Mmu.{mmu_ok, mperm_read}
use criscv.Mmu.Loops.{all_allow}
use criscv.Mmu.Transfer.{IsValid, read_result, mmu_read_into_lem}
use criscv.Memory.{mult, read_ram}
use criscv.Bus.{Bus, bus_ok, find, dev_read, bus_read_multiple, read_many_at}
use criscv.Bus.Access.{settled, lock-free, bus_find_device-hit}

module _ (bus : Bus) (free : bus.locked ≡ false) (v : IsValid bus.mmu) (offs : ℕ)
    (fits : offs < 2 ^ 32) (i : ℕ) (dev : MmioDevice) (hit : find bus.devices offs ≡ some (i, dev))
    (is_ram : dev.driver ≡ ram) where
  pub dev_read-ram :
      (b : Bus) (count : ℕ) (aw : AccessWidth)
      → dev_read dev b offs count aw ≡ read_ram dev b.mmu (u32 offs) count aw
  unfolding dev_read
  dev_read-ram b count aw = ground arith

  -- A range of readable bytes.
  pub bus_read_multiple-ram :
      (count : ℕ) (aw : AccessWidth)
      → count * mult aw < 2 ^ 32
      → bus.mmu.base ≤ offs
      → offs + count * mult aw ≤ bus.mmu.base + bus.mmu.size
      → all_allow (count * mult aw) (offs - bus.mmu.base) mperm_read bus.mmu ≡ true
      → bus_read_multiple bus offs count aw
        ≡ ok (
          count,
          slice bus.mmu.bytes (offs - bus.mmu.base) (count * mult aw),
          settled bus i dev (record bus.mmu { state = mmu_ok }),
        )
  unfolding bus_read_multiple read_many_at read_ram read_result
  bus_read_multiple-ram count aw small lo hi allowed =
      let held = record bus { locked = true } in
      let found = record held { status = bus_ok } in
      let narrow : u32 offs ≡ offs = omega arith in
      let size : u64 (count * mult aw) ≡ count * mult aw = omega arith in
      rw (
        lock-free bus free,
        bus_find_device-hit held offs hit,
        dev_read-ram found count aw,
        narrow,
        size,
        mmu_read_into_lem bus.mmu v offs (count * mult aw) fits small,
        le→ltb offs bus.mmu.base lo,
        le→ltb (bus.mmu.base + bus.mmu.size) (offs + count * mult aw) hi,
        allowed,
        eq→== (count * mult aw) (count * mult aw) refl,
        eq→== count count refl,
      )
