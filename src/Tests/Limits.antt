-- ===== src/Tests/Limits.antt =====
-- The bounds of a core, applied to a fetch from the memory.
use criscv.Base.{◌%◌, ◌≡◌, refl, arith, ok, ℕ, List, stop, assert_failed, inl}
use criscv.Bus.{
  Bus, find, covers, bus_read_multiple, lock, unlock, bus_find_device, read_many_at, dev_read,
  update_device, put, bus_read_single,
}
use criscv.Mmio.{word}
use criscv.Mmu.Loops.{all_allow}
use criscv.Mmu.Transfer.{IsValid}
use criscv.Cpu.Words.{bus_read_multiple-bus_read_single}
use criscv.Tests.Sample.{ram_device, sample_core, sample_bus, value_or, segment}
use criscv.Cpu.Abort.{core_cycle-assert_failed}
use criscv.Bus.Bytes.{IsTidy}
use criscv.Memory.{le_value, read_ram}
use criscv.Mmu.{allows, mmu_read_into, mmu_check_access, check_loop, copy_out}
use criscv.Cpu.State.{Core, cpu_init}
use criscv.Cpu.Stages.{core_cycle, run_stage, fetch, fill, filled, word_at}
use criscv.Cpu.Bounded.{IsBounded}
use criscv.Cpu.Bounded.Cycle.{core_cycle-AreBounded}

-- A segment whose bytes are their own offsets, all readable, and a core that fetches from it.
abbrev readable_bus : Bus
readable_bus = record sample_bus { mmu = record segment { bytes = λ i. i % 256; perm = λ _. 6 } }

abbrev fetching_core : Core
fetching_core = record sample_core { pc = 0x104 }

readable_bus-IsValid : IsValid readable_bus.mmu
readable_bus-IsValid = record {
  bytes_fit = refl;
  perm_fit = refl;
  dirty_fit = omega arith;
  in_space = omega arith;
  not_null = omega arith;
  curr_low = omega arith;
  curr_high = omega arith;
}

-- Four words, and the third of them.
bus_read_multiple-bus_read_single_example :
    (bytes : List ℕ) × (b : Bus) × (bus_read_multiple readable_bus 0x104 4 word ≡ ok (4, bytes, b))
    × (bus_read_single readable_bus 0x10c word ≡ ok (word_at bytes 2, b))
unfolding find covers all_allow allows
bus_read_multiple-bus_read_single_example =
    bus_read_multiple-bus_read_single readable_bus refl readable_bus-IsValid 1 ram_device refl 0x104
      4 2 refl refl (omega arith) (omega arith) (omega arith) refl

fetching_core-IsBounded : IsBounded fetching_core
unfolding cpu_init
fetching_core-IsBounded = record {
  narrow = record {
    pc_fits = omega arith;
    out_fits = omega arith;
    rs1_fits = omega arith;
    rs2_fits = omega arith;
    target_fits = omega arith;
    offset_fits = omega arith;
  };
  registers_fit = λ x. ground arith;
  saved_fit = λ x. ground arith;
  prefetch_fits = λ k. ground arith;
  instruction_fits = omega arith;
}

readable_bus-IsTidy : IsTidy readable_bus
readable_bus-IsTidy = record {
  is_free = refl;
  valid = readable_bus-IsValid;
  holds = λ i. omega arith;
}

abbrev after_fetch : Core × Bus
after_fetch = value_or (core_cycle fetching_core readable_bus) (fetching_core, readable_bus)

fetch_runs : core_cycle fetching_core readable_bus ≡ ok (after_fetch.0, after_fetch.1)
unfolding cpu_init core_cycle run_stage fetch fill filled bus_read_multiple lock unlock
    bus_find_device find covers read_many_at dev_read update_device put read_ram mmu_read_into
    mmu_check_access check_loop copy_out allows word_at le_value
fetch_runs = refl

core_cycle-AreBounded_example : IsBounded after_fetch.0 × IsTidy after_fetch.1
core_cycle-AreBounded_example =
    core_cycle-AreBounded fetching_core after_fetch.0 readable_bus after_fetch.1
      fetching_core-IsBounded readable_bus-IsTidy fetch_runs

-- The word at 0x124 can be read, but the segment ends at 0x140.
core_cycle-assert_failed_example :
    core_cycle (record sample_core { pc = 0x124 }) readable_bus ≡ stop assert_failed
unfolding cpu_init find covers
core_cycle-assert_failed_example =
    core_cycle-assert_failed (record sample_core { pc = 0x124 }) readable_bus 1 0x140 ram_device
      refl refl refl readable_bus-IsValid (omega arith) refl refl (omega arith) (omega arith)
      (inl (omega arith))
