-- ===== src/Cpu/Trap.antt =====
-- Traps: which words cause one, and how the core goes through it and back.
use criscv.Base.{
  ℕ, ◌+◌, ◌-◌, ◌%◌, ◌^◌, ◌<◌, ◌≡◌, refl, ap, ◌∙◌, arith, bit_and, ok, u32, u64, add32, update,
}
use criscv.Base.Bits.{and_mask}
use criscv.Bus.{Bus}
use criscv.Csr.{mcause, mepc, csr_read_write32, csr_read_clear32}
use criscv.Cpu.Isa.{unknown, c_type, decode_type_table}
use criscv.Cpu.State.{
  Core, in_trap, in_fetch, no_trap, enter, handle, cause_trap, illegal_instruction, env_call_umode,
}
use criscv.Cpu.Decode.{decode, decode_format, decode_common}
use criscv.Cpu.Execute.{execute, execute_format, execute_c}
use criscv.Cpu.Stages.{core_cycle, run_stage, trap, trap_step}
use criscv.Cpu.Run.{cycles, fetched, Trapped}

pub opcode-decode_common : (core : Core) → (decode_common core).opcode ≡ core.instruction % 2 ^ 7
unfolding decode_common
opcode-decode_common core = and_mask 7 core.instruction

pub optype-decode_common :
    (core : Core) → (decode_common core).optype ≡ decode_type_table (core.instruction % 2 ^ 7)
unfolding decode_common
optype-decode_common core = ap decode_type_table (and_mask 7 core.instruction)

-- The core about to trap, one cycle after the fetch and two.
abbrev refused : Core → ℕ → Core
refused core w = record (fetched core w) {
  decoded = decode_common (fetched core w);
  state = in_trap;
  trap_state = enter;
  csr = update core.csr mcause illegal_instruction;
  cycle = u64 (core.cycle + 1);
}

abbrev calling : Core → ℕ → Core
calling core w = record (fetched core w) {
  decoded = decode_common (fetched core w);
  state = in_trap;
  trap_state = enter;
  csr = update core.csr mcause env_call_umode;
  cycle = u64 (u64 (core.cycle + 1) + 1);
}

-- A word whose opcode is in no format, FENCE's among them, leaves the core about to trap with the
-- cause `ILLEGAL_INSTRUCTION` one cycle after the fetch, in any condition of the core, with the
-- registers and `pc` unchanged.
pub cycles-unknown :
    (core : Core) (bus : Bus) (w : ℕ)
    → decode_type_table (w % 2 ^ 7) ≡ unknown
    → (c : Core) × (cycles 1 (fetched core w) bus ≡ ok (c, bus))
      × Trapped core illegal_instruction c
unfolding cycles core_cycle run_stage decode decode_format cause_trap csr_read_write32
cycles-unknown core bus w h =
    let format = optype-decode_common (fetched core w) ∙ h in
    (
      refused core w,
      rw format,
      record {
        trap_next = refl;
        trap_entered = refl;
        trap_cause = refl;
        trap_registers = refl;
        trap_pc = refl;
      },
    )

-- Every word with the opcode of the system instructions, those on the CSRs and EBREAK among them, is
-- a system call: two cycles after the fetch the core is about to trap with the cause
-- `ENV_CALL_UMODE`, in any condition of the core, with the registers and `pc` unchanged.
pub cycles-system :
    (core : Core) (bus : Bus) (w : ℕ)
    → w % 2 ^ 7 ≡ 0x73
    → (c : Core) × (cycles 2 (fetched core w) bus ≡ ok (c, bus)) × Trapped core env_call_umode c
unfolding cycles core_cycle run_stage decode decode_format execute execute_format execute_c
    cause_trap csr_read_write32 decode_type_table
cycles-system core bus w h =
    let dec = fetched core w in
    let format : (decode_common dec).optype ≡ c_type =
      optype-decode_common dec ∙ ap decode_type_table h in
    let opcode : (decode_common dec).opcode ≡ 0x73 = opcode-decode_common dec ∙ h in
    (
      calling core w,
      rw (format, opcode),
      record {
        trap_next = refl;
        trap_entered = refl;
        trap_cause = refl;
        trap_registers = refl;
        trap_pc = refl;
      },
    )

-- The core between the trap's first cycle and its third, while the emulator handles it.
pub record Handling (core : Core) (c : Core) : Type 0 where
  pub still_trap : c.state ≡ in_trap
  pub handling : c.trap_state ≡ handle
  pub saved_registers : c.trap_regs ≡ core.registers
  pub saved_pc : c.trap_pc ≡ core.pc
  pub saved_epc : c.csr ≡ update core.csr mepc core.pc

abbrev entered : Core → Core
entered core = record core {
  trap_regs = core.registers;
  prefetch_cnt = 0;
  trap_pc = core.pc;
  csr = update core.csr mepc core.pc;
  state = in_trap;
  trap_state = handle;
  cycle = u64 (core.cycle + 1);
}

abbrev returned : Core → (ℕ → ℕ) → Core
returned core registers = record core {
  registers = registers;
  trap_regs = registers;
  trap_pc = core.pc;
  prefetch_cnt = 0;
  pc = add32 core.pc 4;
  state = in_fetch;
  trap_state = no_trap;
  csr = update (update core.csr mepc core.pc) mepc (bit_and core.pc (2 ^ 32 - 1));
  cycle = u64 (u64 (u64 (core.cycle + 1) + 1) + 1);
}

-- A core about to trap, with its `pc` in 32 bits, is a cycle later in the trap's second state, its
-- registers and `pc` saved. Whatever registers the handler then leaves among those that were saved,
-- two cycles later the core holds them, and is about to fetch the word after the one that trapped,
-- with nothing prefetched and out of the trap.
pub cycles-handled :
    (core : Core) (bus : Bus) (registers : ℕ → ℕ)
    → core.state ≡ in_trap
    → core.trap_state ≡ enter
    → core.pc < 2 ^ 32
    → (c : Core) × (c' : Core) × (cycles 1 core bus ≡ ok (c, bus))
      × Handling core c
      × (cycles 2 (record c { trap_regs = registers }) bus ≡ ok (c', bus))
      × (c'.registers ≡ registers)
      × (c'.pc ≡ add32 core.pc 4)
      × (c'.state ≡ in_fetch)
      × (c'.trap_state ≡ no_trap)
      × (c'.prefetch_cnt ≡ 0)
unfolding cycles core_cycle run_stage trap trap_step csr_read_write32 csr_read_clear32
cycles-handled core bus registers h e small =
    let epc : u32 core.pc ≡ core.pc = omega arith in
    (
      entered core,
      returned core registers,
      rw (h, e),
      record {
        still_trap = refl;
        handling = refl;
        saved_registers = refl;
        saved_pc = refl;
        saved_epc = refl;
      },
      rw epc,
      refl,
      refl,
      refl,
      refl,
      refl,
    )
