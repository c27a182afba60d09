-- ===== src/Cpu/Stages.antt =====
-- The stages `fetch`, `memory_access`, `writeback` and `trap`, and `core_cycle`, which runs one of
-- the six. The bus stands beside the core.
use criscv.Base.{
  ℕ, ◌+◌, ◌-◌, ◌*◌, ◌==◌, leb, if◌then◌else◌, List, take, drop, Result, ok, stop, assert_failed,
  out_of_bounds, require, ◌>>=◌, ◌>>◌, add32, u64, update,
}
use criscv.Config.{prefetch_size}
use criscv.Csr.{csr_read_write32, csr_read_clear32, mepc}
use criscv.Mmio.{word}
use criscv.Memory.{le_value}
use criscv.Bus.{
  Bus, BusStatus, read_misaligned, write_misaligned, address_not_found, is_bus_ok, bus_read_single,
  bus_read_multiple, bus_write_single,
}
use criscv.Cpu.State.{
  Core, CoreState, in_fetch, in_decode, in_execute, in_memory, in_writeback, in_trap, TrapState,
  no_trap, enter, handle, exit, cause_trap, instruction_addr_misalign, instruction_access_fault,
  load_addr_misaligned, load_access_fault, load_page_fault, store_addr_misaligned,
  store_access_fault, store_page_fault,
}
use criscv.Cpu.Decode.{decode}
use criscv.Cpu.Execute.{execute}

-- The word `k` of some bytes.
unfoldable pub word_at : List ℕ → ℕ → ℕ
word_at bytes k = le_value (take 4 (drop (4 * k) bytes))

abbrev pub fetch_cause : BusStatus → ℕ
fetch_cause read_misaligned = instruction_addr_misalign
fetch_cause _ = instruction_access_fault

-- What follows the read of eight words over `instruction` and, next to it, `prefetch`.
unfoldable pub filled : Core → ℕ → List ℕ → Bus → Result (Core × Bus)
filled core n bytes bus =
    if n == prefetch_size
    then ok (
      record core {
        instruction = word_at bytes 0;
        prefetch = λ k. word_at bytes (k + 1);
        prefetch_cnt = prefetch_size - 1;
      },
      bus,
    )
    else (cause_trap core (fetch_cause bus.status) >>= λ _. stop assert_failed)

unfoldable pub fill : Core → Bus → Result (Core × Bus)
fill core bus = do
  (n, bytes, b) ← bus_read_multiple bus core.pc prefetch_size word
  filled core n bytes b

unfoldable pub next_prefetched : Core → Result Core
next_prefetched core = do
  require (leb core.prefetch_cnt (prefetch_size - 1)) out_of_bounds
  ok (record core {
    instruction = core.prefetch (prefetch_size - 1 - core.prefetch_cnt);
    prefetch_cnt = core.prefetch_cnt - 1;
  })

unfoldable pub fetch : Core → Bus → Result (Core × Bus)
fetch core bus =
    if core.prefetch_cnt == 0 then fill core bus else (next_prefetched core >>= λ c. ok (c, bus))

abbrev pub load_cause : BusStatus → ℕ
load_cause read_misaligned = load_addr_misaligned
load_cause address_not_found = load_access_fault
load_cause _ = load_page_fault

abbrev pub store_cause : BusStatus → ℕ
store_cause write_misaligned = store_addr_misaligned
store_cause address_not_found = store_access_fault
store_cause _ = store_page_fault

-- After an access: a trap, if the bus reports no success.
unfoldable pub report : (BusStatus → ℕ) → Core → Bus → Result (Core × Bus)
report cause core bus =
    if is_bus_ok bus.status
    then ok (core, bus)
    else (cause_trap core (cause bus.status) >>= λ c. ok (c, bus))

unfoldable pub memory_access : Core → Bus → Result (Core × Bus)
memory_access core bus =
    let dec = core.decoded in
    if dec.read_mem
    then (do
      (r, b) ← bus_read_single bus dec.mem_offset dec.mem_access_width
      report load_cause (record core { alu_out = r }) b)
    else (if dec.write_mem
        then (do
          b ← bus_write_single bus dec.mem_offset core.alu_out dec.mem_access_width
          report store_cause core b)
        else ok (core, bus))

-- The macro `REG_W`.
abbrev pub reg_w : Core → ℕ → ℕ → Core
reg_w core x y = record core { registers = update core.registers x (if x == 0 then 0 else y) }

unfoldable pub writeback : Core → Core
writeback core =
    let dec = core.decoded in
    let c = if dec.write_rd then reg_w core dec.rd core.alu_out else core in
    if dec.is_jump
    then record c { pc = dec.jump_target; prefetch_cnt = 0 }
    else record c { pc = add32 c.pc 4 }

-- The `switch` of `trap`.
unfoldable pub trap_step : TrapState → Core → Result Core
trap_step no_trap core = stop assert_failed
trap_step enter core = do
  (_, csr) ← csr_read_write32 core.csr mepc core.pc
  ok (record core {
    trap_regs = core.registers;
    prefetch_cnt = 0;
    trap_pc = core.pc;
    csr = csr;
    state = in_trap;
    trap_state = handle;
  })
trap_step handle core = ok (record core { trap_state = exit })
trap_step exit core = do
  (epc, csr) ← csr_read_clear32 core.csr mepc 0
  ok (record core {
    registers = core.trap_regs;
    pc = add32 epc 4;
    csr = csr;
    trap_state = no_trap;
    state = in_fetch;
    prefetch_cnt = 0;
  })

unfoldable pub trap : Core → Result Core
trap core = trap_step core.trap_state core

-- The end of the macro `_stage`.
abbrev pub after_stage : CoreState → CoreState → CoreState
after_stage next in_trap = in_trap
after_stage next _ = next

abbrev pub staged : CoreState → Core → Core
staged next core = record core { cycle = u64 (core.cycle + 1); state = after_stage next core.state }

-- The stage that the state names, and the state after it.
unfoldable pub run_stage : CoreState → Core → Bus → Result (Core × Bus)
run_stage in_trap core bus = trap core >>= λ c. ok (staged in_fetch c, bus)
run_stage in_fetch core bus = fetch core bus >>= λ r. ok (staged in_decode r.0, r.1)
run_stage in_decode core bus = decode core >>= λ c. ok (staged in_execute c, bus)
run_stage in_execute core bus = execute core >>= λ c. ok (staged in_memory c, bus)
run_stage in_memory core bus = memory_access core bus >>= λ r. ok (staged in_writeback r.0, r.1)
run_stage in_writeback core bus = ok (staged in_fetch (writeback core), bus)

unfoldable pub core_cycle : Core → Bus → Result (Core × Bus)
core_cycle core bus = run_stage core.state core bus
