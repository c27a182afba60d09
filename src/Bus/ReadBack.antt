-- ===== src/Bus/ReadBack.antt =====
-- A load after a store, through the bus.
use criscv.Base.{
  ℕ, ◌+◌, ◌-◌, ◌%◌, ◌^◌, ◌≤◌, ◌<◌, ◌≡◌, refl, sym, ap, ◌∙◌, arith, true, false, some, ok, length,
  u8,
}
use criscv.Mmio.{AccessWidth, MmioDevice, ram}
use criscv.Mmu.{Mmu, mperm_write}
use criscv.Mmu.Loops.{all_allow}
use criscv.Mmu.Transfer.{IsValid, after_write, read_result}
use criscv.Mmu.ReadBack.{Opens, write_result-inside, read_result-after_write, after_write-IsValid}
use criscv.Memory.{mult, write_value}
use criscv.Memory.Words.{width_mod, settle, length-write_value, read_value-write_value}
use criscv.Bus.{Bus, bus_ok, find, may_write, bus_read_single, bus_write_single}
use criscv.Bus.Find.{find-put, SamePlace}
use criscv.Bus.Access.{settled, bus_read_single-ram, bus_write_single-ram}

pub settle-SamePlace : (dev : MmioDevice) (m : Mmu) → SamePlace dev (settle dev m)
settle-SamePlace dev m = ground arith

-- What a store put at a 32-bit address of the RAM device, a load of the same width returns, cut to
-- the width, both with the status `BUS_OK`: if the mutex is free, the segment well-formed and wide enough
-- for the access, the device and each byte may be written, and each byte was readable or
-- read-after-write.
pub bus_read_single-bus_write_single :
    (bus : Bus) (offs value i : ℕ) (dev : MmioDevice) (aw : AccessWidth)
    → bus.locked ≡ false
    → IsValid bus.mmu
    → offs < 2 ^ 32
    → find bus.devices offs ≡ some (i, dev)
    → dev.driver ≡ ram
    → may_write dev ≡ true
    → bus.mmu.base ≤ offs
    → offs + mult aw ≤ bus.mmu.base + bus.mmu.size
    → all_allow (mult aw) (offs - bus.mmu.base) mperm_write bus.mmu ≡ true
    → Opens bus.mmu (offs - bus.mmu.base) (mult aw)
    → (b : Bus) × (b' : Bus) × (bus_write_single bus offs value aw ≡ ok b)
      × (bus_read_single b offs aw ≡ ok (value % width_mod aw, b'))
      × (b.status ≡ bus_ok)
      × (b'.status ≡ bus_ok)
bus_read_single-bus_write_single bus offs value i dev aw free v fits hit is_ram w lo hi allowed
      opens =
    let src = write_value aw value in
    let m = after_write bus.mmu src offs in
    let dev' = settle dev m in
    let b = settled bus i dev m in
    let n = length-write_value aw value in
    let hi' : offs + length src ≤ bus.mmu.base + bus.mmu.size = rw n hi in
    let again = find-put bus.devices offs i dev dev' hit (settle-SamePlace dev m) in
    let stored = write_result-inside bus.mmu src offs lo hi' (rw n allowed) in
    let loaded = read_result-after_write bus.mmu src offs lo hi' (rw n opens) in
    let at_width = ap (λ (k : ℕ). read_result m offs k) (sym n) ∙ loaded in
    let valid = after_write-IsValid bus.mmu src offs v in
    (
      b,
      settled b i dev' m,
      rw (bus_write_single-ram bus free v offs fits i dev hit is_ram aw value w, stored),
      rw (
        bus_read_single-ram b refl valid offs fits i dev' again is_ram aw,
        at_width,
        read_value-write_value aw (u8 bus.old_byte) value,
      ),
      refl,
      refl,
    )
