-- ===== src/Tests/Calls.antt =====
-- The theorems on src/syscall.c and src/emulator.c, applied to a host that answers with constants.
use criscv.Base.{ℕ, ◌≡◌, ◌≢◌, ◌⊎◌, refl, arith, true, false, ok, update}
use criscv.Mmu.Transfer.{after_write, write_result}
use criscv.Mmu.Allocate.{allocate_result}
use criscv.Bus.{Bus, bus_ok, device_failure, find, covers}
use criscv.Cpu.State.{Core, cpu_init, in_fetch, no_trap}
use criscv.Cpu.Run.{fetched}
use criscv.Syscall.{handle_syscall, sys_read, sys_brk, sys_close, set_result}
use criscv.Syscall.Frame.{Answered, handle_syscall-Answered}
use criscv.Syscall.Transfer.{sys_read_lem}
use criscv.Syscall.Break.{sys_brk_lem}
use criscv.Emulator.{cpu_thread}
use criscv.Emulator.Call.{calling, cpu_thread-call, cpu_thread-exit}
use criscv.Tests.Sample.{
  two_bytes, sample_host, segment-IsValid, ram_device, sample_bus, sample_core,
}

-- x17 is 57, for `close`, and x10 is 7.
abbrev closing_core : Core
closing_core = record sample_core {
  registers = update (update sample_core.registers 17 57) 10 7;
  trap_handler = true;
}

closed :
    handle_syscall sample_host (calling closing_core 0x73) sample_bus 4 57 7 0 0
    ≡ ok (true, set_result (calling closing_core 0x73) 0, sample_bus, 5)
unfolding handle_syscall sys_close
closed = refl

cpu_thread-call_example :
    (c : Core) × (cpu_thread sample_host 5 (fetched closing_core 0x73) sample_bus 4
      ≡ ok (true, c, sample_bus, 5))
    × (c.registers ≡ (set_result (calling closing_core 0x73) 0).trap_regs)
    × ((i : ℕ) → i ≢ 10 → c.registers i ≡ closing_core.registers i)
    × (c.pc ≡ 0x10004)
    × (c.state ≡ in_fetch)
    × (c.trap_state ≡ no_trap)
unfolding cpu_init
cpu_thread-call_example =
    cpu_thread-call sample_host closing_core sample_bus 4 0x73 refl refl (omega arith)
      (set_result (calling closing_core 0x73) 0) sample_bus 5 closed

-- x17 is 93, for `exit`.
abbrev leaving_core : Core
leaving_core = record closing_core { registers = update closing_core.registers 17 93 }

left :
    handle_syscall sample_host (calling leaving_core 0x73) sample_bus 4 93 7 0 0
    ≡ ok (false, calling leaving_core 0x73, sample_bus, 4)
unfolding handle_syscall
left = refl

cpu_thread-exit_example :
    cpu_thread sample_host 9 (fetched leaving_core 0x73) sample_bus 4
    ≡ ok (false, calling leaving_core 0x73, sample_bus, 4)
unfolding cpu_init
cpu_thread-exit_example =
    cpu_thread-exit sample_host leaving_core sample_bus 4 0x73 refl refl 6
      (calling leaving_core 0x73) sample_bus 4 left

handle_syscall-Answered_example :
    Answered (calling closing_core 0x73) (set_result (calling closing_core 0x73) 0)
handle_syscall-Answered_example =
    handle_syscall-Answered (calling closing_core 0x73) (set_result (calling closing_core 0x73) 0)
      sample_bus 5 true sample_host sample_bus 4 57 7 0 0 closed

sys_read_lem_example :
    (b : Bus) × (sys_read sample_host sample_core sample_bus 4 0 0x108 2
      ≡ ok (true, set_result sample_core 1, b, 5))
    × (((write_result sample_bus.mmu two_bytes 0x108
            ≡ (2, after_write sample_bus.mmu two_bytes 0x108))
          × (b.mmu ≡ after_write sample_bus.mmu two_bytes 0x108)
          × (b.locked ≡ false)
          × (b.status ≡ bus_ok))
        ⊎ (((write_result sample_bus.mmu two_bytes 0x108).0 ≡ 0)
            × (b.locked ≡ true)
            × (b.status ≡ device_failure)))
unfolding find covers
sys_read_lem_example =
    sys_read_lem sample_host sample_core sample_bus 4 0 0x108 2 1 ram_device refl segment-IsValid
      (omega arith) (omega arith) refl refl refl refl refl (omega arith)

sys_brk_lem_example :
    (sys_brk sample_host sample_core sample_bus 4 0
      ≡ ok (true, set_result sample_core 0x100, sample_bus, 4))
    × (sys_brk sample_host sample_core sample_bus 4 0x105
        ≡ ok (
          true,
          set_result sample_core 0x105,
          record sample_bus { mmu = (allocate_result sample_bus.mmu 0x100 10).1 },
          4,
        ))
sys_brk_lem_example =
    sys_brk_lem sample_host sample_core sample_bus 4 0x105 segment-IsValid (omega arith)
