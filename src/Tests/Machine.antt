-- ===== src/Tests/Machine.antt =====
-- The theorems on the traps, the fetch and the decoder of src/cpu.c, applied to a core and a bus.
use criscv.Base.{◌%◌, ◌≡◌, refl, arith, ok, update}
use criscv.Mmu.{allows}
use criscv.Mmu.Loops.{all_allow}
use criscv.Bus.{Bus, find, covers}
use criscv.Cpu.Isa.{decode_type_table}
use criscv.Cpu.State.{
  Core, cpu_init, in_trap, in_fetch, no_trap, enter, illegal_instruction, env_call_umode,
}
use criscv.Cpu.Stages.{core_cycle, run_stage, trap, trap_step, fetch}
use criscv.Csr.{csr_read_write32}
use criscv.Memory.{le_value}
use criscv.Cpu.Run.{cycles, fetched, Trapped}
use criscv.Cpu.Trap.{cycles-unknown, cycles-system, cycles-handled, Handling}
use criscv.Cpu.Sound.{IsSound, core_cycle-IsSound}
use criscv.Cpu.Prefetch.{fetch-word_in, Mirrors}
use criscv.Tests.Sample.{sample_core, sample_bus, value_or, segment, ram_device}

-- `fence`
cycles-unknown_example :
    (c : Core) × (cycles 1 (fetched sample_core 0x0000000f) sample_bus ≡ ok (c, sample_bus))
    × Trapped sample_core illegal_instruction c
unfolding decode_type_table
cycles-unknown_example = cycles-unknown sample_core sample_bus 0x0000000f refl

-- `csrrw x7, mepc, x5`
cycles-system_example :
    (c : Core) × (cycles 2 (fetched sample_core 0x341293f3) sample_bus ≡ ok (c, sample_bus))
    × Trapped sample_core env_call_umode c
cycles-system_example = cycles-system sample_core sample_bus 0x341293f3 refl

abbrev trapping_core : Core
trapping_core = record sample_core { state = in_trap; trap_state = enter }

-- The handler answers 7 in x10.
cycles-handled_example :
    (c : Core) × (c' : Core) × (cycles 1 trapping_core sample_bus ≡ ok (c, sample_bus))
    × Handling trapping_core c
    × (cycles 2 (record c { trap_regs = update sample_core.registers 10 7 }) sample_bus
        ≡ ok (c', sample_bus))
    × (c'.registers ≡ update sample_core.registers 10 7)
    × (c'.pc ≡ 0x10004)
    × (c'.state ≡ in_fetch)
    × (c'.trap_state ≡ no_trap)
    × (c'.prefetch_cnt ≡ 0)
unfolding cpu_init
cycles-handled_example =
    cycles-handled trapping_core sample_bus (update sample_core.registers 10 7) refl refl
      (omega arith)

sample_core-IsSound : IsSound trapping_core
unfolding cpu_init
sample_core-IsSound = record {
  trapping = refl;
  zero_reads_0 = refl;
  saved_zero = refl;
  prefetch_fits = omega arith;
}

-- The first cycle of the trap.
abbrev handled_core : Core
handled_core = (value_or (core_cycle trapping_core sample_bus) (trapping_core, sample_bus)).0

first_cycle : core_cycle trapping_core sample_bus ≡ ok (handled_core, sample_bus)
unfolding cpu_init core_cycle run_stage trap trap_step csr_read_write32
first_cycle = refl

core_cycle-IsSound_example : IsSound handled_core
core_cycle-IsSound_example =
    core_cycle-IsSound trapping_core handled_core sample_bus sample_bus sample_core-IsSound
      first_cycle

-- A segment whose bytes are their own offsets, all readable.
abbrev counting_bus : Bus
counting_bus = record sample_bus { mmu = record segment { bytes = λ i. i % 256; perm = λ _. 6 } }

abbrev ready_core : Core
ready_core = record sample_core { pc = 0x104 }

fetch-word_in_example :
    (c : Core) × (b : Bus) × (fetch ready_core counting_bus ≡ ok (c, b))
    × (c.pc ≡ 0x104)
    × (c.instruction ≡ 0x07060504)
    × Mirrors (record c { pc = 0x108 }) b.mmu
    × (b.mmu.bytes ≡ counting_bus.mmu.bytes)
unfolding cpu_init find covers all_allow allows le_value
fetch-word_in_example =
    fetch-word_in ready_core counting_bus 1 ram_device
      (record { left = omega arith; mirrored = λ k h. absurd (omega arith) }) refl
      (record {
        bytes_fit = refl;
        perm_fit = refl;
        dirty_fit = omega arith;
        in_space = omega arith;
        not_null = omega arith;
        curr_low = omega arith;
        curr_high = omega arith;
      })
      (omega arith) refl refl (omega arith) (omega arith) refl
