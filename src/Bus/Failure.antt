-- ===== src/Bus/Failure.antt =====
-- `bus_write_multiple`, whose failure keeps the mutex.
use criscv.Base.{
  ℕ, ◌*◌, ◌^◌, ◌<◌, ◌≡◌, ◌≢◌, refl, ◌∙◌, arith, true, false, List, some, ok, length, u32,
}
use criscv.Base.{u64, if◌then◌else◌, ◌==◌}
use criscv.Mmio.{AccessWidth, byte, halfword, word, MmioDevice, ram}
use criscv.Mmu.{Mmu}
use criscv.Mmu.Transfer.{IsValid, after_write, write_result, mmu_write_from_lem}
use criscv.Memory.{mult, write_ram, is_mmu_ok}
use criscv.Memory.Words.{settle}
use criscv.Bus.{Bus, device_failure, bus_ok, find, put, may_write, is_ready, dev_write}
use criscv.Bus.{bus_write_multiple, write_many_at}
use criscv.Bus.Access.{lock-free, bus_find_device-hit}

-- What the RAM device answers to a write of `count` items: the number of bytes.
unfoldable pub answer : ℕ × Mmu → ℕ
answer r = if is_mmu_ok r.1.state then r.0 else 0

differs :
    (aw : AccessWidth) (count n : ℕ)
    → aw ≢ byte
    → 0 < count
    → count * mult aw ≡ n
    → (n == count) ≡ false
differs byte count n wide pos full = absurd (wide refl)
differs halfword count n wide pos full = ground arith
differs word count n wide pos full = ground arith

module _ (bus : Bus) (free : bus.locked ≡ false) (v : IsValid bus.mmu) (offs : ℕ)
    (fits : offs < 2 ^ 32) (i : ℕ) (dev : MmioDevice) (hit : find bus.devices offs ≡ some (i, dev))
    (is_ram : dev.driver ≡ ram) (w : may_write dev ≡ true) (idle : is_ready dev.state ≡ true) where
  dev_write-ram :
      (b : Bus) (src : List ℕ) (count : ℕ) (aw : AccessWidth)
      → dev_write dev b offs src count aw ≡ write_ram dev b.mmu (u32 offs) src count aw
  unfolding dev_write
  dev_write-ram b src count aw = ground arith

  -- A transfer of `count` items that fill `src`.
  pub bus_write_multiple-ram :
      (src : List ℕ) (count : ℕ) (aw : AccessWidth)
      → count * mult aw ≡ length src
      → length src < 2 ^ 32
      → let r = write_result bus.mmu src offs in
        let b = record bus {
          devices = put bus.devices i (settle dev r.1);
          mmu = r.1;
          locked = true;
        } in
        bus_write_multiple bus offs src count aw
        ≡ ok (
            if answer r == count
            then (count, record b { status = bus_ok; locked = false })
            else (0, record b { status = device_failure }))
  unfolding bus_write_multiple write_many_at write_ram answer
  bus_write_multiple-ram src count aw full small =
      let held = record bus { locked = true } in
      let found = record held { status = bus_ok } in
      let narrow : u32 offs ≡ offs = omega arith in
      let size : u64 (count * mult aw) ≡ length src = omega arith in
      rw
        (
          lock-free bus free,
          bus_find_device-hit held offs hit,
          w,
          idle,
          dev_write-ram found src count aw,
          narrow,
          size,
          mmu_write_from_lem bus.mmu v src offs fits small,
        )
        (ground arith)

  -- A write of one or more whole words or halfwords to the RAM device, writable and ready, that the
  -- well-formed segment accepts puts them into the memory and yet fails, since the device counts
  -- bytes: it returns 0 with the status `BUS_DEVICE_FAILURE`, and leaves the mutex, free before,
  -- locked. The address and the size fit in 32 bits.
  pub bus_write_multiple-wide :
      (src : List ℕ) (count : ℕ) (aw : AccessWidth)
      → aw ≢ byte
      → 0 < count
      → count * mult aw ≡ length src
      → length src < 2 ^ 32
      → write_result bus.mmu src offs ≡ (length src, after_write bus.mmu src offs)
      → (b : Bus) × (bus_write_multiple bus offs src count aw ≡ ok (0, b))
        × (b.mmu ≡ after_write bus.mmu src offs)
        × (b.status ≡ device_failure)
        × (b.locked ≡ true)
  unfolding answer
  bus_write_multiple-wide src count aw wide pos full small written =
      let m = after_write bus.mmu src offs in
      let b = record bus {
        devices = put bus.devices i (settle dev m);
        mmu = m;
        locked = true;
        status = device_failure;
      } in
      (
        b,
        bus_write_multiple-ram src count aw full small
            ∙ (rw (written, differs aw count (length src) wide pos full)),
        refl,
        refl,
        refl,
      )
