-- ===== src/Tests/Starting.antt =====
-- The start of src/emulator.c on a segment of 8 KB.
use criscv.Base.{
  ℕ, ◌<◌, ◌≤◌, ◌≡◌, refl, arith, true, false, [], ◌∷◌, List, ok, some, ltb, if◌then◌else◌, get_or,
  ◌-◌, none, ◌>>=◌,
}
use criscv.Mmio.{MmioDevice, ready, ram}
use criscv.Mmu.{Mmu, mmu_ok, allows, mperm_read}
use criscv.Bus.{Bus, bus_ok, find, covers}
use criscv.Cpu.State.{Core}
use criscv.Spec.Alu.{add, alu, funct3}
use criscv.Spec.Encode.{encode_i, extend12}
use criscv.Spec.Machine.{Machine, op_imm, encode, step, set, number_at, put_bytes, store_size}
use criscv.Cpu.Refine.{Layout, Backs, Agrees, Runs, done, more}
use criscv.Tests.Sample.{sample_host, generous}
use criscv.Emulator.Stack.{stacked}
use criscv.Emulator.Main.{emulator_run}
use criscv.Emulator.Ends.{first_machine, emulator_run-ends}
use criscv.Config.{ram_size}
use criscv.Emulator.Init.{emulator_init_lem}
use criscv.Emulator.{prepare, emulator_init}
use criscv.Emulator.Start.{IsUsable}
use criscv.Emulator.Frame.{start_layout, Started}
use criscv.Emulator.Prepare.{prepare_lem}

-- `addi x17, x0, 93` and `ecall`.
abbrev program : List ℕ
program = 0x93 ∷ 0x08 ∷ 0xd0 ∷ 0x05 ∷ 0x73 ∷ 0x00 ∷ 0x00 ∷ 0x00 ∷ []

abbrev room : Mmu
room = record {
  size = 0x2000;
  base = 0x10000;
  curr_vaddr = 0x10400;
  bytes = λ j. get_or program j 0;
  bytes_len = 0x2000;
  perm = λ j. if ltb j 64 then 4 else 0;
  perm_len = 0x2000;
  dirty = λ _. false;
  dirty_len = 0x2000;
  state = mmu_ok;
}

abbrev device : MmioDevice
device = record { base_address = 0x10000; size = 0x2000; perm = 3; state = ready; driver = ram }

abbrev bus : Bus
bus = record { devices = device ∷ []; locked = false; status = bus_ok; mmu = room; old_byte = 0 }

device_found : (a : ℕ) → 0x10000 ≤ a → a < 0x12000 → find (device ∷ []) a ≡ some (0, device)
unfolding find covers
device_found a lo hi = ground arith

bus-IsUsable : IsUsable 0 bus
bus-IsUsable = record {
  is_free = refl;
  valid = record {
    bytes_fit = refl;
    perm_fit = refl;
    dirty_fit = omega arith;
    in_space = omega arith;
    not_null = omega arith;
    curr_low = omega arith;
    curr_high = omega arith;
  };
  all_ready = λ a lo hi. (device, device_found a lo (omega arith), refl, refl, refl);
}

abbrev name : List ℕ
name = 46 ∷ 47 ∷ 112 ∷ 0 ∷ []

abbrev argument : List ℕ
argument = 104 ∷ 105 ∷ 0 ∷ []

-- "./p" and "hi".
prepare_lem_example :
    (c : Core) × (b : Bus) × (prepare bus 0x10000 name argument ≡ ok (c, b))
    × Started bus 0x10000 name argument c b
prepare_lem_example =
    prepare_lem 0 bus bus-IsUsable 0x10000 name argument (omega arith) (omega arith) (omega arith)
      (omega arith) (omega arith)

code_reads :
    (a : ℕ) → 0x10000 ≤ a → a < 0x10040 → allows (room.perm (a - 0x10000)) mperm_read ≡ true
unfolding allows
code_reads a lo hi = ground arith

abbrev first : Machine
first =
    first_machine 0 bus bus-IsUsable 0x10000 name argument (omega arith) (omega arith) (omega arith)
      (omega arith) (omega arith) 0x10000 0x10040 (omega arith) (omega arith) code_reads

abbrev lay : Layout
lay = start_layout 0 room 0x10000 0x10040

abbrev last : Machine
last = step (op_imm add 93 0 17) first

first-Runs : Runs lay 1 first last
unfolding step set encode Agrees stacked store_size number_at put_bytes encode_i funct3
first-Runs =
    more (op_imm add 93 0 17) (omega arith) (omega arith) refl
      (omega arith, omega arith, omega arith) done

emulator_run-ends_example :
    (c : Core) × (b : Bus) × (emulator_run sample_host 10 bus 0x10000 name argument 4
      ≡ ok (false, c, b, 4))
    × (c.registers ≡ last.registers)
    × Backs lay b last
unfolding step set stacked store_size number_at put_bytes alu extend12
emulator_run-ends_example =
    emulator_run-ends 0 bus bus-IsUsable 0x10000 name argument (omega arith) (omega arith)
      (omega arith) (omega arith) (omega arith) 0x10000 0x10040 (omega arith) (omega arith)
      code_reads sample_host 1 1 4 last first-Runs (omega arith) (omega arith) refl refl

emulator_init_lem_example :
    (b : Bus) × (emulator_init generous (λ x. ok (true, x)) 7
      ≡ (ok (true, b) >>= λ (shown, x). ok (if shown then some x else none)))
    × IsUsable 0 b
    × (b.mmu.curr_vaddr ≡ b.mmu.base)
    × ((j : ℕ) → j < ram_size → (b.mmu.bytes j ≡ 0) × (b.mmu.perm j ≡ 10))
emulator_init_lem_example = emulator_init_lem generous (λ x. ok (true, x)) 7 refl
