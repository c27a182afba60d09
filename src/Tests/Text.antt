-- ===== src/Tests/Text.antt =====
-- A text in the memory, read through the bus of src/bus.c.
use criscv.Base.{◌≡◌, refl, arith, false, [], ◌∷◌, ok, update}
use criscv.Mmu.{allows}
use criscv.Mmu.Transfer.{IsValid}
use criscv.Bus.{Bus, bus_ok, find, covers, bus_read_string}
use criscv.Bus.Text.{HoldsText, bus_read_string_lem}
use criscv.Tests.Sample.{segment, ram_device, sample_bus}

-- `AB` at 0x108, in readable memory.
abbrev text_bus : Bus
text_bus = record sample_bus {
  mmu = record segment { bytes = update (update (λ _. 0) 8 65) 9 66; perm = λ _. 6 };
}

held : HoldsText text_bus 0x108 (65 ∷ 66 ∷ [])
unfolding find covers allows
held = (
  record {
    index = 1;
    device = ram_device;
    hit = refl;
    is_ram = refl;
    above = omega arith;
    below = omega arith;
    readable = refl;
    content = refl;
  },
  omega arith,
  omega arith,
  (
    record {
      index = 1;
      device = ram_device;
      hit = refl;
      is_ram = refl;
      above = omega arith;
      below = omega arith;
      readable = refl;
      content = refl;
    },
    omega arith,
    omega arith,
    record {
      index = 1;
      device = ram_device;
      hit = refl;
      is_ram = refl;
      above = omega arith;
      below = omega arith;
      readable = refl;
      content = refl;
    },
  ),
)

text_bus-IsValid : IsValid text_bus.mmu
text_bus-IsValid = record {
  bytes_fit = refl;
  perm_fit = refl;
  dirty_fit = omega arith;
  in_space = omega arith;
  not_null = omega arith;
  curr_low = omega arith;
  curr_high = omega arith;
}

bus_read_string_lem_example :
    (b : Bus) × (bus_read_string text_bus 0x108 256 ≡ ok (65 ∷ 66 ∷ 0 ∷ [], b))
    × (b.status ≡ bus_ok)
    × (b.locked ≡ false)
bus_read_string_lem_example =
    bus_read_string_lem text_bus 0x108 256 (65 ∷ 66 ∷ []) refl text_bus-IsValid (omega arith)
      (omega arith) held
