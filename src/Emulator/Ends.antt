-- ===== src/Emulator/Ends.antt =====
-- A program from the end of its loading to its `exit`.
use criscv.Base.{
  ℕ, ◌+◌, ◌-◌, ◌*◌, ◌^◌, ◌<◌, ◌≤◌, ◌≡◌, refl, arith, true, false, List, length, ok, Result, some,
  none, stop, null_call, Bool,
}
use criscv.Config.{stack_size}
use criscv.Mmu.{Heap, mperm_read, allows}
use criscv.Mmu.Allocate.{aligned}
use criscv.Bus.{Bus}
use criscv.Cpu.State.{Core, cpu_init}
use criscv.Spec.Machine.{Machine, number_at}
use criscv.Cpu.Refine.{Layout, Backs, Represents, Runs}
use criscv.Cpu.Refine.Retire.{Backs-moved}
use criscv.Syscall.{Host}
use criscv.Emulator.{prepare, cpu_thread, emulator_init, emulator_load_elf}
use criscv.Emulator.Start.{IsUsable}
use criscv.Emulator.Frame.{start_layout, first_registers, started_core}
use criscv.Emulator.Prepare.{pushed, prepared}
use criscv.Emulator.Rounds.{cpu_thread-ends}
use criscv.Emulator.Main.{emulator_run, load_file, loaded, with_emulator, main}

module _ (i : ℕ) (bus : Bus) (u : IsUsable i bus) (entry : ℕ) (argv0 argv1 : List ℕ)
    (pos0 : 0 < length argv0) (pos1 : 0 < length argv1) (small0 : length argv0 < 2 ^ 31)
    (small1 : length argv1 < 2 ^ 31)
    (room : bus.mmu.curr_vaddr + stack_size + aligned (length argv0) + aligned (length argv1)
      < bus.mmu.base + bus.mmu.size)
    (code_start code_end : ℕ) (code_low : bus.mmu.base ≤ code_start)
    (code_high : code_end ≤ bus.mmu.curr_vaddr)
    (code_reads : (a : ℕ)
      → code_start ≤ a
      → a < code_end
      → allows (bus.mmu.perm (a - bus.mmu.base)) mperm_read ≡ true) where
  -- The abstract machine as the program starts.
  abbrev pub first_machine : Machine
  first_machine =
      record (pushed i bus u entry argv0 argv1 pos0 pos1 small0 small1 room code_start code_end
        code_low code_high code_reads) {
          pc = entry;
          registers = first_registers (bus.mmu.curr_vaddr + stack_size);
        }

  abbrev pub layout : Layout
  layout = start_layout i bus.mmu code_start code_end

  -- `emulator_run` hands the abstract machine over to the core: the loaded code, the arguments behind the
  -- stack, and the frame on it.
  pub prepare-Represents :
      (b : Bus) × (prepare bus entry argv0 argv1
        ≡ ok (started_core entry (bus.mmu.curr_vaddr + stack_size), b))
      × Represents layout (started_core entry (bus.mmu.curr_vaddr + stack_size)) b first_machine
  unfolding cpu_init
  prepare-Represents =
      let (b, run, started, backs) =
        prepared i bus u entry argv0 argv1 pos0 pos1 small0 small1 room code_start code_end code_low
          code_high code_reads in
      let before =
        pushed i bus u entry argv0 argv1 pos0 pos1 small0 small1 room code_start code_end code_low
          code_high code_reads in
      (
        b,
        run,
        record {
          backs =
              Backs-moved layout b before (first_registers (bus.mmu.curr_vaddr + stack_size)) entry
                backs;
          fetches = refl;
          has_handler = refl;
          same_pc = refl;
          same_registers = refl;
          mirrors = record { left = omega arith; mirrored = λ k h. absurd (omega arith) };
          ahead = λ h. absurd (omega arith);
        },
      )

  run_thread :
      {S : Type 0} (host : Host S) (rounds : ℕ) (c d : Core) (b x : Bus) (s t : S)
      → prepare bus entry argv0 argv1 ≡ ok (c, b)
      → cpu_thread host rounds c b s ≡ ok (false, d, x, t)
      → emulator_run host rounds bus entry argv0 argv1 s ≡ ok (false, d, x, t)
  unfolding emulator_run
  run_thread host rounds c d b x s t first rest = rw (first, rest)

  -- A loaded program runs to its end: `emulator_run` prepares the core, and if the abstract machine,
  -- from the entry point with the registers and the frame on the stack that were prepared and the code
  -- that was loaded, comes in `n` steps that the core takes alike to the word of ECALL, with 93 for
  -- `exit` in x17, then the loop of the thread is left after five rounds for each instruction and four
  -- for the call, with the registers and the memory of the machine, and no call of the host was made.
  -- The ECALL and each instruction before it begin at least 32 bytes before the end of the code, as far
  -- as a fetch may read ahead. The steps store to the stack alone, and load from the code, from the
  -- frame and from what they stored: no step loads from the texts of the arguments. The mutex is free and the segment well-formed, of one RAM device, ready and writable; the code
  -- lies in it below `curr_vaddr` and is readable; above it is more room than the stack and the two
  -- arguments take, each with its zero byte and shorter than 2 ^ 31.
  pub emulator_run-ends :
      {S : Type 0} (host : Host S) (n k : ℕ) (s : S) (m' : Machine)
      → Runs layout n first_machine m'
      → code_start ≤ m'.pc
      → m'.pc + 32 ≤ code_end
      → number_at m'.memory m'.pc 4 ≡ 0x73
      → m'.registers 17 ≡ 93
      → (c : Core) × (b : Bus) × (emulator_run host (n * 5 + (4 + k)) bus entry argv0 argv1 s
          ≡ ok (false, c, b, s))
        × (c.registers ≡ m'.registers)
        × Backs layout b m'
  emulator_run-ends host n k s m' runs lo hi word exits =
      let (b, first, there) = prepare-Represents in
      let core = started_core entry (bus.mmu.curr_vaddr + stack_size) in
      let (c, x, run, registers, backs) =
        cpu_thread-ends host layout n k core b s first_machine m' there runs lo hi word exits in
      (c, x, run_thread host (n * 5 + (4 + k)) core c b x s s first run, registers, backs)

-- Where there is no file, `main` goes on to run the program all the same, and uses the pointer that was
-- never set: whatever the host, the arguments and the room, once `emulator_init` has given an emulator.
main_no_file :
    {S : Type 0} (host : Host S) (rounds : ℕ) (heap : Heap) (video_init : Bus → Result (Bool × Bus))
    (old_byte : ℕ) (granted : Bool) (argv0 argv1 : List ℕ) (s : S) (bus : Bus)
    → emulator_init heap video_init old_byte ≡ ok (some bus)
    → main host rounds heap video_init old_byte none granted argv0 argv1 s ≡ stop null_call
unfolding main with_emulator load_file emulator_load_elf loaded
main_no_file host rounds heap video_init old_byte granted argv0 argv1 s bus given = rw given
