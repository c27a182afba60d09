-- ===== src/Cpu/State.antt =====
-- The records of src/cpu.h, and how a core begins and is stopped by a trap.
use criscv.Base.{ℕ, Bool, false, ltb, Result, ok, assert_failed, require, ◌>>=◌, ◌>>◌}
use criscv.Config.{numcores}
use criscv.Csr.{Csr, csr_read_write32, mcause}
use criscv.Mmio.{AccessWidth, byte}
use criscv.Cpu.Isa.{OpType, unknown}

-- `instr_t`
pub record Instr : Type 0 where
  pub optype : OpType
  pub opcode : ℕ
  pub rs1 : ℕ
  pub rs2 : ℕ
  pub rd : ℕ
  pub funct7 : ℕ
  pub funct3 : ℕ
  pub shamt : ℕ
  pub imm5 : ℕ
  pub imm12 : ℕ
  pub imm20 : ℕ
  pub rs1v : ℕ
  pub rs2v : ℕ
  pub mem_offset : ℕ
  pub jump_target : ℕ
  pub mem_access_width : AccessWidth
  pub is_jump : Bool
  pub write_rd : Bool
  pub read_mem : Bool
  pub write_mem : Bool

-- `core_state_t`
pub data CoreState : Type 0 where
  in_fetch in_decode in_execute in_memory in_writeback in_trap : CoreState

-- `trap_state_t`
pub data TrapState : Type 0 where
  no_trap enter handle exit : TrapState

-- `priv_mode_t`
pub data PrivMode : Type 0 where
  pmode_machine pmode_supervisor pmode_user pmode_debug : PrivMode

-- `trap_cause_t`: the causes that the core raises or the emulator tells apart.
abbrev pub instruction_addr_misalign : ℕ
instruction_addr_misalign = 0

abbrev pub instruction_access_fault : ℕ
instruction_access_fault = 1

abbrev pub illegal_instruction : ℕ
illegal_instruction = 2

abbrev pub load_addr_misaligned : ℕ
load_addr_misaligned = 4

abbrev pub load_access_fault : ℕ
load_access_fault = 5

abbrev pub store_addr_misaligned : ℕ
store_addr_misaligned = 6

abbrev pub store_access_fault : ℕ
store_access_fault = 7

abbrev pub env_call_umode : ℕ
env_call_umode = 8

abbrev pub load_page_fault : ℕ
load_page_fault = 13

abbrev pub store_page_fault : ℕ
store_page_fault = 15

-- `core_t`. Its arrays are functions of the index; `bus` is passed beside the core, and of
-- `trap_handler` the model has whether it is set.
pub record Core : Type 0 where
  pub state : CoreState
  pub instruction : ℕ
  pub prefetch : ℕ → ℕ
  pub decoded : Instr
  pub pc : ℕ
  pub alu_out : ℕ
  pub registers : ℕ → ℕ
  pub cycle : ℕ
  pub csr : Csr
  pub trap_pc : ℕ
  pub trap_regs : ℕ → ℕ
  pub prefetch_cnt : ℕ
  pub id : ℕ
  pub priv_mode : PrivMode
  pub trap_state : TrapState
  pub halted : Bool
  pub trap_handler : Bool

abbrev zero_instr : Instr
zero_instr = record {
  optype = unknown;
  opcode = 0;
  rs1 = 0;
  rs2 = 0;
  rd = 0;
  funct7 = 0;
  funct3 = 0;
  shamt = 0;
  imm5 = 0;
  imm12 = 0;
  imm20 = 0;
  rs1v = 0;
  rs2v = 0;
  mem_offset = 0;
  jump_target = 0;
  mem_access_width = byte;
  is_jump = false;
  write_rd = false;
  read_mem = false;
  write_mem = false;
}

-- The one core of `cpu_init`, cleared by its `memset`; the model has no failure of its `malloc`.
unfoldable pub cpu_init : Core
cpu_init = record {
  state = in_fetch;
  instruction = 0;
  prefetch = λ _. 0;
  decoded = zero_instr;
  pc = 0;
  alu_out = 0;
  registers = λ _. 0;
  cycle = 0;
  csr = λ _. 0;
  trap_pc = 0;
  trap_regs = λ _. 0;
  prefetch_cnt = 0;
  id = 0;
  priv_mode = pmode_machine;
  trap_state = no_trap;
  halted = false;
  trap_handler = false;
}

unfoldable pub core_init : Core → ℕ → ℕ → Result Core
core_init core core_num initial_pc = do
  require (ltb core_num numcores) assert_failed
  ok (record core {
    id = core_num;
    pc = initial_pc;
    cycle = 0;
    state = in_fetch;
    priv_mode = pmode_machine;
    prefetch_cnt = 0;
    halted = false;
    registers = λ _. 0;
  })

unfoldable pub cause_trap : Core → ℕ → Result Core
unfolding csr_read_write32
cause_trap core cause = do
  (_, csr) ← csr_read_write32 core.csr mcause cause
  ok (record core { state = in_trap; trap_state = enter; csr = csr })
