-- ===== src/Emulator.antt =====
-- src/emulator.c: the owner of the core, the bus and the segment. `emu->bus` and `emu->mmu` are the bus
-- and its segment; the core's thread is the loop `cpu_thread`.
pub mod Call
pub mod Rounds
pub mod Stack
pub mod Start
pub mod Init
pub mod Frame
pub mod Prepare
pub mod Main
pub mod Load
pub mod Ends
use criscv.Base.{
  ℕ, zero, suc, ◌+◌, ◌*◌, ◌/◌, ◌%◌, ◌^◌, bit_or, Bool, true, false, ◌&&◌, ◌==◌, if◌then◌else◌, List,
  [], ◌∷◌, length, update, u32, u64, add32, sub32, Option, none, some, Result, ok, stop,
  assert_failed, null_call, require, ◌>>=◌, ◌>>◌, ltb,
}
use criscv.Config.{ram_start, ram_size, stack_size}
use criscv.Mmio.{MmioDevice, ready, ram, word, byte, read_perm, write_perm}
use criscv.Mmu.{Mmu, Heap, mmu_init, mmu_allocate, mmu_allocate_raw, mperm_raw, mperm_write}
use criscv.Csr.{csr_mmio_device, csr_read_clear32, mcause, mepc}
use criscv.Bus.{Bus, BusStatus, bus_ok, bus_init, bus_write_single, bus_write_multiple}
use criscv.Cpu.State.{
  Core, CoreState, in_trap, TrapState, handle, cpu_init, core_init, env_call_umode,
}
use criscv.Cpu.Stages.{core_cycle}
use criscv.Elf.{elf_load}
use criscv.Syscall.{Host, handle_syscall}

abbrev pub ram_device : MmioDevice
ram_device = record {
  base_address = ram_start;
  size = ram_size;
  perm = bit_or read_perm write_perm;
  state = ready;
  driver = ram;
}

-- The devices of `main_bus`.
abbrev pub main_devices : List MmioDevice
main_devices = ram_device ∷ csr_mmio_device ∷ []

-- The loop of `load_into_ram` at index `i`, with the words that are left.
unfoldable pub load_loop : Bus → ℕ → ℕ → List ℕ → Result Bus
load_loop bus base_addr i [] = ok bus
load_loop bus base_addr i (x ∷ rom) = do
  b ← bus_write_single bus (u64 (base_addr + i * 4)) x word
  load_loop b base_addr (i + 1) rom

unfoldable pub load_into_ram : Bus → ℕ → List ℕ → Result Bus
load_into_ram bus base_addr rom = load_loop bus base_addr 0 rom

-- `main_bus`, with its segment and what an uninitialised byte of a local holds.
abbrev pub main_bus : Mmu → ℕ → Bus
main_bus mmu old_byte = record {
  devices = main_devices;
  locked = false;
  status = bus_ok;
  mmu = mmu;
  old_byte = old_byte;
}

-- `video_init` stands for the function of the video device, whose file is not in the repository: it may
-- change the bus and the segment. Where there is no memory for the segment the code goes on with a
-- null pointer; here that is the stop of its first use.
unfoldable pub emulator_init : Heap → (Bus → Result (Bool × Bus)) → ℕ → Result (Option Bus)
emulator_init heap video_init old_byte = mmu_init heap ram_start ram_size >>= go
  where
    go : Option Mmu → Result (Option Bus)
    go none = stop null_call
    go (some m) = do
      (shown, bus) ← video_init (bus_init (main_bus m old_byte))
      ok (if shown then some bus else none)

-- `file` is what `load_file` gives. With it the entry point of the program is kept.
unfoldable pub emulator_load_elf : Heap → Option (List ℕ) → Bus → Result (Bool × ℕ × Bus)
emulator_load_elf heap none bus = ok (false, 0, bus)
emulator_load_elf heap (some file) bus = elf_load heap file bus.mmu >>= go
  where
    go : Option ℕ × Mmu → Result (Bool × ℕ × Bus)
    go (none, m) = stop null_call
    go (some entry, m) = do
      require (ltb 0 entry) assert_failed
      ok (true, entry, record bus { mmu = m })

-- The macro `push`.
unfoldable pub push : Core → Bus → ℕ → Result (Core × Bus)
push core bus x = do
  let sp = sub32 (core.registers 2) 4
  b ← bus_write_single bus sp x word
  ok (record core { registers = update core.registers 2 sp }, b)

unfoldable pub push_all : Core → Bus → List ℕ → Result (Core × Bus)
push_all core bus [] = ok (core, bus)
push_all core bus (x ∷ xs) = push core bus x >>= λ r. push_all r.0 r.1 xs

-- What `emulator_run` does before the core starts: `argv0` and `argv1` with their zero bytes, and
-- `entry` that of the program.
unfoldable pub prepare : Bus → ℕ → List ℕ → List ℕ → Result (Core × Bus)
unfolding cpu_init
prepare bus entry argv0 argv1 = do
  (stack, m) ← mmu_allocate_raw bus.mmu stack_size
  core ← core_init cpu_init 0 entry
  let c = record core { registers = update core.registers 1 0x1337c0de }
  (av0, m0) ← mmu_allocate m (length argv0) (bit_or mperm_raw mperm_write)
  (_, b0) ← bus_write_multiple (record bus { mmu = m0 }) av0 argv0 (length argv0) byte
  (av1, m1) ← mmu_allocate b0.mmu (length argv1) (bit_or mperm_raw mperm_write)
  (_, b1) ← bus_write_multiple (record b0 { mmu = m1 }) av1 argv1 (length argv1) byte
  let d = record c {
    registers = update c.registers 2 (add32 stack stack_size);
    trap_handler = true;
  }
  push_all d b1 (0 ∷ 0 ∷ 0 ∷ av1 ∷ av0 ∷ 42 ∷ [])

abbrev pub is_handling : CoreState → TrapState → Bool
is_handling in_trap handle = true
is_handling _ _ = false

module _ {S : Type 0} (host : Host S) where
  unfoldable pub handle_umode_call : Core → Bus → S → Result (Bool × Core × Bus × S)
  handle_umode_call core bus s =
      handle_syscall host core bus s (core.registers 17) (core.registers 10) (core.registers 11)
        (core.registers 12)

  -- Every cause but a system call ends the program.
  unfoldable pub trap_handler : Core → Bus → S → Result (Bool × Core × Bus × S)
  unfolding handle_umode_call
  trap_handler core bus s = do
    (cause, csr) ← csr_read_clear32 core.csr mcause 0
    (trap_pc, csr') ← csr_read_clear32 csr mepc 0
    let c = record core { csr = csr' }
    if cause == env_call_umode then handle_umode_call c bus s else ok (false, c, bus, s)

  -- One round of the loop of `cpu_thread`, with whether it goes on.
  unfoldable pub thread_round : Core → Bus → S → Result (Bool × Core × Bus × S)
  thread_round core bus s = do
    (c, b) ← core_cycle core bus
    if is_handling c.state c.trap_state
        then (if c.trap_handler then trap_handler c b s else ok (false, c, b, s))
        else ok (true, c, b, s)

  -- The first rounds, `n` of them or as many as there are before the loop is left.
  unfoldable pub cpu_thread : ℕ → Core → Bus → S → Result (Bool × Core × Bus × S)
  cpu_thread zero core bus s = ok (true, core, bus, s)
  cpu_thread (suc n) core bus s = do
    (goes_on, c, b, s') ← thread_round core bus s
    let rest = cpu_thread n c b s'
    if goes_on then rest else ok (false, c, b, s')
