-- ===== src/Tests/Refinement.antt =====
-- A program of four instructions on the core of src/cpu.c and on the abstract machine.
use criscv.Base.{
  ℕ, ◌-◌, ◌<◌, ◌≤◌, ◌≡◌, refl, arith, true, false, [], ◌∷◌, List, ltb, get_or, update, ok,
  if◌then◌else◌, inl, some,
}
use criscv.Mmio.{MmioDevice, ready, ram}
use criscv.Mmu.{Mmu, mmu_ok, allows}
use criscv.Mmu.Transfer.{IsValid}
use criscv.Bus.{Bus, bus_ok, find, covers}
use criscv.Cpu.State.{Core, cpu_init}
use criscv.Cpu.Run.{cycles}
use criscv.Cpu.Refine.{Layout, Represents, Backs, Agrees, Runs, done, more}
use criscv.Cpu.Refine.Simulate.{cycles-Runs}
use criscv.Emulator.{cpu_thread}
use criscv.Emulator.Rounds.{cpu_thread-ends}
use criscv.Tests.Sample.{sample_host}
use criscv.Spec.Alu.{add, alu, funct3}
use criscv.Spec.Encode.{extend12, extend13, encode_i, encode_s, encode_b}
use criscv.Spec.Access.{lw, sw, load_funct3, store_funct3}
use criscv.Spec.Branch.{beq, taken, branch_funct3}
use criscv.Spec.Machine.{
  op_imm, load, store, branch, encode, Machine, number_at, step, set, put_bytes, byte_of, load_size,
  store_size, extended,
}

-- `addi x5, x0, 7`, `sw x5, 0(x8)`, `lw x6, 0(x8)` and `beq x5, x6, -12`.
abbrev program : List ℕ
program =
    0x93 ∷ 0x02 ∷ 0x70 ∷ 0x00 ∷ 0x23 ∷ 0x20 ∷ 0x54 ∷ 0x00 ∷ 0x03 ∷ 0x23 ∷ 0x04 ∷ 0x00 ∷ 0xe3 ∷ 0x8a
    ∷ 0x62 ∷ 0xfe ∷ []

-- 64 readable bytes with the program, and 64 that are read-after-write.
abbrev memory : List ℕ → Mmu
memory code = record {
  size = 128;
  base = 0x100;
  curr_vaddr = 0x180;
  bytes = λ j. get_or code j 0;
  bytes_len = 128;
  perm = λ j. if ltb j 64 then 4 else 10;
  perm_len = 128;
  dirty = λ _. false;
  dirty_len = 3;
  state = mmu_ok;
}

memory-IsValid : (code : List ℕ) → IsValid (memory code)
memory-IsValid code = record {
  bytes_fit = refl;
  perm_fit = refl;
  dirty_fit = omega arith;
  in_space = omega arith;
  not_null = omega arith;
  curr_low = omega arith;
  curr_high = omega arith;
}

abbrev device : MmioDevice
device = record { base_address = 0x100; size = 128; perm = 3; state = ready; driver = ram }

abbrev bus : List ℕ → Bus
bus code = record {
  devices = device ∷ [];
  locked = false;
  status = bus_ok;
  mmu = memory code;
  old_byte = 0;
}

abbrev core : Core
core = record cpu_init { trap_handler = true; pc = 0x100; registers = update (λ _. 0) 8 0x140 }

abbrev layout : Layout
layout = record {
  start = 0x100;
  end = 0x180;
  code_start = 0x100;
  code_end = 0x140;
  data_start = 0x140;
  data_end = 0x180;
  device = 0;
}

abbrev machine : List ℕ → Machine
machine code = record {
  pc = 0x100;
  registers = update (λ _. 0) 8 0x140;
  memory = λ a. get_or code (a - 0x100) 0;
  readable = λ a. ltb a 0x140;
}

device_found : (a : ℕ) → 0x100 ≤ a → a < 0x180 → find (device ∷ []) a ≡ some (0, device)
unfolding find covers
device_found a lo hi = ground arith

machine-Backs : (code : List ℕ) → Backs layout (bus code) (machine code)
unfolding allows
machine-Backs code = record {
  is_free = refl;
  valid = memory-IsValid code;
  starts = refl;
  ends = refl;
  code_inside = (omega arith, omega arith);
  data_inside = (omega arith, omega arith);
  apart = inl (omega arith);
  all_ram = λ a lo hi. (device, device_found a lo hi, refl, refl);
  same_bytes = λ a lo hi. refl;
  may_read = λ a lo hi h. ground arith;
  code_readable = λ a lo hi. ground arith;
  data_writable = λ a lo hi. ground arith;
  data_opens = λ a lo hi. ground arith;
}

machine-Represents : (code : List ℕ) → Represents layout core (bus code) (machine code)
unfolding cpu_init
machine-Represents code = record {
  backs = machine-Backs code;
  fetches = refl;
  has_handler = refl;
  same_pc = refl;
  same_registers = refl;
  mirrors = record { left = omega arith; mirrored = λ k h. absurd (omega arith) };
  ahead = λ h. absurd (omega arith);
}

abbrev stepped : Machine
stepped =
    step (branch beq 8180 6 5)
      (step (load lw 0 8 6) (step (store sw 0 5 8) (step (op_imm add 7 0 5) (machine program))))

machine-Runs : Runs layout 4 (machine program) stepped
unfolding step set encode Agrees alu extend12 extend13 taken load_size store_size extended number_at
    put_bytes byte_of encode_i encode_s encode_b funct3 load_funct3 store_funct3 branch_funct3
machine-Runs =
    more (op_imm add 7 0 5) (omega arith) (omega arith) refl (omega arith, omega arith, omega arith)
      (more (store sw 0 5 8) (omega arith) (omega arith) refl
        (omega arith, omega arith, omega arith, omega arith, omega arith)
        (more (load lw 0 8 6) (omega arith) (omega arith) refl
          (
            omega arith,
            omega arith,
            omega arith,
            omega arith,
            omega arith,
            (λ j lo hi. ground arith),
            refl,
          )
          (more (branch beq 8180 6 5) (omega arith) (omega arith) refl
            (omega arith, refl, omega arith, omega arith) done)))

-- The run ends where it began, with x5 and x6 set.
cycles-Runs_example :
    (c : Core) × (b : Bus) × (cycles 20 core (bus program) ≡ ok (c, b))
    × Represents layout c b stepped
cycles-Runs_example =
    cycles-Runs layout 4 core (bus program) (machine program) stepped (machine-Represents program)
      machine-Runs

-- `addi x5, x0, 93`, `sw x5, 0(x8)`, `lw x17, 0(x8)` and `ecall`.
abbrev exiting : List ℕ
exiting =
    0x93 ∷ 0x02 ∷ 0xd0 ∷ 0x05 ∷ 0x23 ∷ 0x20 ∷ 0x54 ∷ 0x00 ∷ 0x83 ∷ 0x28 ∷ 0x04 ∷ 0x00 ∷ 0x73 ∷ 0x00
    ∷ 0x00 ∷ 0x00 ∷ []

abbrev at_call : Machine
at_call = step (load lw 0 8 17) (step (store sw 0 5 8) (step (op_imm add 93 0 5) (machine exiting)))

exiting-Runs : Runs layout 3 (machine exiting) at_call
unfolding step set encode Agrees alu extend12 load_size store_size extended number_at put_bytes
    byte_of encode_i encode_s funct3 load_funct3 store_funct3
exiting-Runs =
    more (op_imm add 93 0 5) (omega arith) (omega arith) refl
      (omega arith, omega arith, omega arith)
      (more (store sw 0 5 8) (omega arith) (omega arith) refl
        (omega arith, omega arith, omega arith, omega arith, omega arith)
        (more (load lw 0 8 17) (omega arith) (omega arith) refl
          (
            omega arith,
            omega arith,
            omega arith,
            omega arith,
            omega arith,
            (λ j lo hi. ground arith),
            refl,
          )
          done))

cpu_thread-ends_example :
    (c : Core) × (b : Bus) × (cpu_thread sample_host 24 core (bus exiting) 4 ≡ ok (false, c, b, 4))
    × (c.registers ≡ at_call.registers)
    × Backs layout b at_call
unfolding step set alu extend12 load_size store_size extended number_at put_bytes byte_of
cpu_thread-ends_example =
    cpu_thread-ends sample_host layout 3 5 core (bus exiting) 4 (machine exiting) at_call
      (machine-Represents exiting) exiting-Runs (omega arith) (omega arith) refl refl
