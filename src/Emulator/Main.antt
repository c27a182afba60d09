-- ===== src/Emulator/Main.antt =====
-- src/main.c, with `load_file` and `emulator_run` of src/emulator.c: the program from its start to the
-- end of the core's thread, which `emulator_run` waits for.
use criscv.Base.{
  ℕ, Bool, true, false, ltb, if◌then◌else◌, List, take, length, u32, Option, none, some, Result, ok,
  stop, assert_failed, null_call, require, ◌>>=◌, ◌>>◌,
}
use criscv.Mmu.{Heap}
use criscv.Bus.{Bus}
use criscv.Cpu.State.{Core}
use criscv.Syscall.{Host}
use criscv.Emulator.{emulator_init, emulator_load_elf, prepare, cpu_thread}

-- `disk` is what the file holds, if there is one; its length is kept in 32 bits. `granted` is whether
-- `malloc` finds room for it. No call of the C library fails in another way.
unfoldable pub load_file : Option (List ℕ) → Bool → Result (Option (List ℕ))
load_file none granted = ok none
load_file (some file) granted = do
  let size = u32 (length file)
  require (ltb 0 size) assert_failed
  ok (if granted then some (take size file) else none)

module _ {S : Type 0} (host : Host S) (rounds : ℕ) where
  -- The thread is followed for `rounds` rounds of its loop.
  unfoldable pub emulator_run : Bus → ℕ → List ℕ → List ℕ → S → Result (Bool × Core × Bus × S)
  emulator_run bus entry argv0 argv1 s = do
    (core, b) ← prepare bus entry argv0 argv1
    cpu_thread host rounds core b s

  -- After `emulator_load_elf`, whose answer `main` does not look at: where it is false, the pointer
  -- `elf` was never set.
  unfoldable pub loaded : List ℕ → List ℕ → S → Bool × ℕ × Bus → Result (Bool × Core × Bus × S)
  loaded argv0 argv1 s (false, entry, bus) = stop null_call
  loaded argv0 argv1 s (true, entry, bus) = emulator_run bus entry argv0 argv1 s

  -- After `emulator_init`, whose null pointer is then used.
  unfoldable pub with_emulator :
      Heap
      → Option (List ℕ)
      → Bool
      → List ℕ
      → List ℕ
      → S
      → Option Bus
      → Result (Bool × Core × Bus × S)
  with_emulator heap disk granted argv0 argv1 s none = stop null_call
  with_emulator heap disk granted argv0 argv1 s (some bus) = do
    file ← load_file disk granted
    r ← emulator_load_elf heap file bus
    loaded argv0 argv1 s r

  unfoldable pub main :
      Heap
      → (Bus → Result (Bool × Bus))
      → ℕ
      → Option (List ℕ)
      → Bool
      → List ℕ
      → List ℕ
      → S
      → Result (Bool × Core × Bus × S)
  main heap video_init old_byte disk granted argv0 argv1 s =
      emulator_init heap video_init old_byte >>= with_emulator heap disk granted argv0 argv1 s
