-- ===== src/Bus/Settled.antt =====
-- How an access leaves the bus.
use criscv.Base.{ℕ, ◌^◌, ◌<◌, ◌≡◌, refl, false, Option, none, some, ok, ◌⊎◌, inl, inr}
use criscv.Mmio.{AccessWidth, MmioDevice, Driver, ram, csr_mmio}
use criscv.Mmu.Transfer.{IsValid}
use criscv.Mmu.Safe.{read_result-IsValid, write_result-IsValid}
use criscv.Memory.{mult, write_value}
use criscv.Bus.{Bus, bus_ok, address_not_found, find, bus_read_single}
use criscv.Bus.Total.{load_hit, load_result, store_hit, bus_read_single_lem}

-- The mutex is free, the segment well-formed, and the status one of the two that a single access
-- sets.
pub record IsSettled (b : Bus) : Type 0 where
  pub is_free : b.locked ≡ false
  pub valid : IsValid b.mmu
  pub reported : (b.status ≡ bus_ok) ⊎ (b.status ≡ address_not_found)

load_hit-IsSettled :
    (d : Driver) (bus : Bus) (i : ℕ) (dev : MmioDevice) (offs : ℕ) (aw : AccessWidth)
    → IsValid bus.mmu
    → IsSettled (load_hit d bus i dev offs aw).1
unfolding load_hit
load_hit-IsSettled ram bus i dev offs aw v = record {
  is_free = refl;
  valid = read_result-IsValid bus.mmu offs (mult aw) v;
  reported = inl refl;
}
load_hit-IsSettled csr_mmio bus i dev offs aw v = record {
  is_free = refl;
  valid = v;
  reported = inl refl;
}

pub load_result-IsSettled :
    (o : Option (ℕ × MmioDevice)) (bus : Bus) (offs : ℕ) (aw : AccessWidth)
    → IsValid bus.mmu
    → IsSettled (load_result o bus offs aw).1
unfolding load_result
load_result-IsSettled none bus offs aw v = record { is_free = refl; valid = v; reported = inr refl }
load_result-IsSettled (some (i, dev)) bus offs aw v =
    load_hit-IsSettled dev.driver bus i dev offs aw v

store_hit-IsSettled :
    (d : Driver) (bus : Bus) (i : ℕ) (dev : MmioDevice) (offs value : ℕ) (aw : AccessWidth)
    → IsValid bus.mmu
    → IsSettled (store_hit d bus i dev offs value aw)
unfolding store_hit
store_hit-IsSettled ram bus i dev offs value aw v = record {
  is_free = refl;
  valid = write_result-IsValid bus.mmu (write_value aw value) offs v;
  reported = inl refl;
}
store_hit-IsSettled csr_mmio bus i dev offs value aw v = record {
  is_free = refl;
  valid = v;
  reported = inl refl;
}

-- With the mutex free and the segment well-formed, a load at any 32-bit address returns, gives the
-- mutex back, keeps the segment well-formed, and reports `BUS_OK` or `BUS_ADDRESS_NOT_FOUND`.
pub bus_read_single-IsSettled :
    (bus : Bus) (offs : ℕ) (aw : AccessWidth)
    → bus.locked ≡ false
    → IsValid bus.mmu
    → offs < 2 ^ 32
    → (r : ℕ) × (b : Bus) × (bus_read_single bus offs aw ≡ ok (r, b)) × IsSettled b
bus_read_single-IsSettled bus offs aw free v fits =
    let out = load_result (find bus.devices offs) bus offs aw in
    (
      out.0,
      out.1,
      bus_read_single_lem bus free v offs fits aw,
      load_result-IsSettled (find bus.devices offs) bus offs aw v,
    )
