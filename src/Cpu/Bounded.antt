-- ===== src/Cpu/Bounded.antt =====
-- That every cycle keeps each value of the core within the 32 bits that its C type has.
pub mod Fetch
pub mod Memory
pub mod Cycle
use criscv.Base.{
  ℕ, ◌+◌, ◌-◌, ◌*◌, ◌^◌, ◌<◌, ◌≤◌, ◌≡◌, refl, sym, ◌∙◌, arith, Bool, true, false, if◌then◌else◌,
  List, drop, Result, ok, stop, ◌>>=◌,
}
use criscv.Bus.{
  Bus, find, bus_read_single, bus_write_single, BusStatus, is_bus_ok, bus_read_multiple,
}
use criscv.Mmio.{AccessWidth, word}
use criscv.Bus.Total.{load_result, store_result, bus_read_single_lem, bus_write_single_lem}
use criscv.Bus.Bytes.{
  AllBytes, IsTidy, drop-AllBytes, le_value-take, load_result-IsTidy, store_result-IsTidy,
}
use criscv.Bus.Burst.{IsBurst, bus_read_multiple-IsBurst}
use criscv.Csr.{csr_read_write32, csr_read_clear32}
use criscv.Cpu.State.{
  Core, in_fetch, in_decode, in_execute, in_memory, in_writeback, in_trap, CoreState, TrapState,
  no_trap, enter, handle, exit, cause_trap,
}
use criscv.Cpu.Decode.{decode}
use criscv.Cpu.Execute.{execute}
use criscv.Cpu.Stages.{
  core_cycle, run_stage, staged, trap, trap_step, fetch, fill, filled, next_prefetched,
  memory_access, report, load_cause, store_cause, writeback, word_at,
}
use criscv.Cpu.Run.{writeback_lem}
use criscv.Cpu.Keeps.{Keeps, decode-Keeps, execute-Keeps, memory_access-Keeps}
use criscv.Cpu.Sound.{after-ok, both-ok}
use criscv.Cpu.Bounds.{cause_trap-IsNarrow, IsNarrow, decode-IsNarrow, execute-IsNarrow}

-- What the stages hand on, and the members that they keep.
pub record IsBounded (core : Core) : Type 0 where
  pub narrow : IsNarrow core
  pub registers_fit : (x : ℕ) → core.registers x < 2 ^ 32
  pub saved_fit : (x : ℕ) → core.trap_regs x < 2 ^ 32
  pub prefetch_fits : (k : ℕ) → core.prefetch k < 2 ^ 32
  pub instruction_fits : core.instruction < 2 ^ 32

-- The core between two stages, in whatever state.
pub staged-IsBounded :
    (core : Core) (next : CoreState) → IsBounded core → IsBounded (staged next core)
staged-IsBounded core next w = record {
  narrow = record {
    pc_fits = w.narrow.pc_fits;
    out_fits = w.narrow.out_fits;
    rs1_fits = w.narrow.rs1_fits;
    rs2_fits = w.narrow.rs2_fits;
    target_fits = w.narrow.target_fits;
    offset_fits = w.narrow.offset_fits;
  };
  registers_fit = w.registers_fit;
  saved_fit = w.saved_fit;
  prefetch_fits = w.prefetch_fits;
  instruction_fits = w.instruction_fits;
}

-- A stage that keeps the registers and computes what fits.
pub kept-IsBounded : (core c : Core) → IsBounded core → Keeps core c → IsNarrow c → IsBounded c
kept-IsBounded core c w kept n = record {
  narrow = n;
  registers_fit = rw kept.same_registers w.registers_fit;
  saved_fit = rw kept.same_saved w.saved_fit;
  prefetch_fits = rw kept.same_prefetch w.prefetch_fits;
  instruction_fits = rw kept.same_instruction w.instruction_fits;
}

-- The core and the bus after a stage that returned.
abbrev pub AreBounded : Core × Bus → Type 0
AreBounded (core, bus) = IsBounded core × IsTidy bus

-- A stage that does not use the bus.
pub same_bus :
    (f : Core → Core) (m : Result Core) (c : Core) (bus b : Bus)
    → ◌>>=◌ {Y = Core × Bus} m (λ x. ok (f x, bus)) ≡ ok (c, b)
    → bus ≡ b
same_bus f (stop why) c bus b h = cc
same_bus f (ok x) c bus b h = ground arith
