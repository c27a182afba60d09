-- ===== src/Cpu/Refine.antt =====
-- How the core of src/cpu.c with its bus stands for the abstract machine: where the memory lies, which
-- steps the two take alike, and what each state of one says of the other.
pub mod Memory
pub mod Fetch
pub mod Retire
pub mod Step
pub mod Transfer
pub mod Simulate
use criscv.Base.{
  ℕ, zero, suc, ◌+◌, ◌-◌, ◌*◌, ◌%◌, ◌^◌, ◌<◌, ◌≤◌, ◌≡◌, ◌≢◌, ◌⊎◌, true, false, some, bit_and,
}
use criscv.Mmio.{MmioDevice, ram}
use criscv.Mmu.{mperm_read, mperm_write, mperm_raw, allows}
use criscv.Mmu.Transfer.{IsValid}
use criscv.Bus.{Bus, find, may_write}
use criscv.Cpu.State.{Core, in_fetch}
use criscv.Cpu.Immediate.{HasImmediate}
use criscv.Cpu.Prefetch.{Mirrors}
use criscv.Spec.Alu.{sra}
use criscv.Spec.Machine.{
  Instruction, op, op_imm, load, store, branch, jal, lui, auipc, jalr, encode, Machine, number_at,
  address, load_size, store_size, extended, step,
}

-- The segment, the part of it that holds instructions, and the part that is written; the RAM device
-- is at place `device` of the bus.
pub record Layout : Type 0 where
  pub start : ℕ
  pub end : ℕ
  pub code_start : ℕ
  pub code_end : ℕ
  pub data_start : ℕ
  pub data_end : ℕ
  pub device : ℕ

-- Fields that fit their places, and a step that the code takes as the manual says: not SRA, SRAI or a
-- negative ORI; LB and LH of a number that is not negative; JALR to an even address. A load reads
-- readable bytes of the segment, and a store writes to the data.
unfoldable pub Agrees : Layout → Instruction → Machine → Type 0
Agrees lay (op o rs2 rs1 rd) m = (o ≢ sra) × (rs2 < 32) × (rs1 < 32) × (rd < 32)
Agrees lay (op_imm o imm rs1 rd) m = HasImmediate o imm × (rs1 < 32) × (rd < 32)
Agrees lay (load o imm rs1 rd) m =
    let a = address m imm rs1 in
    let x = number_at m.memory a (load_size o) in
    (imm < 2 ^ 12)
    × (rs1 < 32)
    × (rd < 32)
    × (lay.start ≤ a)
    × (a + load_size o ≤ lay.end)
    × ((j : ℕ) → a ≤ j → j < a + load_size o → m.readable j ≡ true)
    × (extended o x ≡ x)
Agrees lay (store o imm rs2 rs1) m =
    let a = address m imm rs1 in
    (imm < 2 ^ 12)
    × (rs2 < 32)
    × (rs1 < 32)
    × (lay.data_start ≤ a)
    × (a + store_size o ≤ lay.data_end)
Agrees lay (branch o imm rs2 rs1) m = (imm < 2 ^ 13) × (imm % 2 ≡ 0) × (rs2 < 32) × (rs1 < 32)
Agrees lay (jal imm rd) m = (imm < 2 ^ 21) × (imm % 2 ≡ 0) × (rd < 32)
Agrees lay (lui imm rd) m = (imm < 2 ^ 20) × (rd < 32)
Agrees lay (auipc imm rd) m = (imm < 2 ^ 20) × (rd < 32)
Agrees lay (jalr imm rs1 rd) m =
    (imm < 2 ^ 12) × (rs1 < 32) × (rd < 32) × (address m imm rs1 % 2 ≡ 0)

-- `Runs lay n m m'`: `n` steps lead from `m` to `m'`, each of an instruction whose word the memory
-- holds at the program counter, in the code and with room for a fill of the prefetched words.
pub data Runs (lay : Layout) : ℕ → Machine → Machine → Type 0 where
  done : {m : Machine} → Runs lay zero m m
  more :
      {n : ℕ} {m m' : Machine} (i : Instruction)
      → lay.code_start ≤ m.pc
      → m.pc + 32 ≤ lay.code_end
      → number_at m.memory m.pc 4 ≡ encode i
      → Agrees lay i m
      → Runs lay n (step i m) m'
      → Runs lay (suc n) m m'

-- The bus is free, the segment has the bytes of the machine and lies as the layout says, the whole of
-- it belongs to one RAM device, what the machine may read may be read, the code may be read, and the
-- data may be written and then be read.
pub record Backs (lay : Layout) (bus : Bus) (m : Machine) : Type 0 where
  pub is_free : bus.locked ≡ false
  pub valid : IsValid bus.mmu
  pub starts : bus.mmu.base ≡ lay.start
  pub ends : bus.mmu.base + bus.mmu.size ≡ lay.end
  pub code_inside : (lay.start ≤ lay.code_start) × (lay.code_end ≤ lay.end)
  pub data_inside : (lay.start ≤ lay.data_start) × (lay.data_end ≤ lay.end)
  pub apart : (lay.code_end ≤ lay.data_start) ⊎ (lay.data_end ≤ lay.code_start)
  pub all_ram :
      (a : ℕ)
      → lay.start ≤ a
      → a < lay.end
      → (dev : MmioDevice) × (find bus.devices a ≡ some (lay.device, dev))
        × (dev.driver ≡ ram)
        × (may_write dev ≡ true)
  pub same_bytes :
      (a : ℕ) → lay.start ≤ a → a < lay.end → m.memory a ≡ bus.mmu.bytes (a - bus.mmu.base)
  pub may_read :
      (a : ℕ)
      → lay.start ≤ a
      → a < lay.end
      → m.readable a ≡ true
      → allows (bus.mmu.perm (a - bus.mmu.base)) mperm_read ≡ true
  pub code_readable :
      (a : ℕ)
      → lay.code_start ≤ a
      → a < lay.code_end
      → allows (bus.mmu.perm (a - bus.mmu.base)) mperm_read ≡ true
  pub data_writable :
      (a : ℕ)
      → lay.data_start ≤ a
      → a < lay.data_end
      → allows (bus.mmu.perm (a - bus.mmu.base)) mperm_write ≡ true
  pub data_opens :
      (a : ℕ)
      → lay.data_start ≤ a
      → a < lay.data_end
      → (bit_and (bus.mmu.perm (a - bus.mmu.base)) mperm_raw ≡ mperm_raw)
        ⊎ (allows (bus.mmu.perm (a - bus.mmu.base)) mperm_read ≡ true)

-- The core has a handler of traps and is about to fetch, with the registers and the program counter of the machine, and the words
-- it has left are those of the memory, from inside the code.
pub record Represents (lay : Layout) (core : Core) (bus : Bus) (m : Machine) : Type 0 where
  pub backs : Backs lay bus m
  pub fetches : core.state ≡ in_fetch
  pub has_handler : core.trap_handler ≡ true
  pub same_pc : core.pc ≡ m.pc
  pub same_registers : core.registers ≡ m.registers
  pub mirrors : Mirrors core bus.mmu
  pub ahead :
      0 < core.prefetch_cnt
      → (lay.code_start ≤ core.pc) × (core.pc + 4 * core.prefetch_cnt ≤ lay.code_end)
