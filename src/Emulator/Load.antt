-- ===== src/Emulator/Load.antt =====
-- From the start of src/main.c to `emulator_run`: the file is read and loaded.
use criscv.Base.{
  ℕ, ◌+◌, ◌-◌, ◌^◌, ◌<◌, ◌≤◌, ◌≡◌, refl, ap, arith, true, lt→ltb, Bool, ◌&&◌, List, [], ◌∷◌, length,
  take, ok, some, Result, u32, bit_and,
}
use criscv.Config.{ram_start, ram_size}
use criscv.Mmu.{Heap, Mmu, mperm_read, allows}
use criscv.Mmu.Transfer.{IsValid}
use criscv.Bus.{Bus, bus_init}
use criscv.Elf.{Phdr, elf_load}
use criscv.Elf.Segments.{Ascend, AllHeld, Among, end_of}
use criscv.Elf.Whole.{IsFile, elf_load_lem}
use criscv.Elf.One.{Among-end_of, Among-low, Among-readable}
use criscv.Syscall.{Host}
use criscv.Emulator.{emulator_init, emulator_load_elf, ram_device}
use criscv.Emulator.Start.{IsUsable}
use criscv.Emulator.Init.{first_bus, first_bus-find, mmu_init_lem, first_bus-IsUsable}
use criscv.Emulator.Main.{load_file, loaded, with_emulator, emulator_run, main}

take-length : (xs : List ℕ) → take (length xs) xs ≡ xs
take-length [] = refl
take-length (x ∷ xs) = ap (λ ys. x ∷ ys) (take-length xs)

load_file_lem :
    (file : List ℕ)
    → 0 < length file
    → length file < 2 ^ 32
    → load_file (some file) true ≡ ok (some file)
unfolding load_file
load_file_lem file pos small =
    let size : u32 (length file) ≡ length file = omega arith in
    rw (size, lt→ltb 0 (length file) pos, take-length file)

emulator_load_elf_lem :
    (heap : Heap) (file : List ℕ) (bus : Bus) (entry : ℕ) (m : Mmu)
    → 0 < entry
    → elf_load heap file bus.mmu ≡ ok (some entry, m)
    → emulator_load_elf heap (some file) bus ≡ ok (true, entry, record bus { mmu = m })
unfolding emulator_load_elf
emulator_load_elf_lem heap file bus entry m pos run = rw (run, lt→ltb 0 entry pos)

-- The first bus with a segment of its size.
with_mmu-IsUsable :
    (heap : Heap) (old_byte : ℕ) (m : Mmu)
    → IsValid m
    → m.base ≡ ram_start
    → m.size ≡ ram_size
    → IsUsable 0 (record (first_bus heap old_byte) { mmu = m })
with_mmu-IsUsable heap old_byte m v at size = record {
  is_free = (first_bus-IsUsable heap old_byte).is_free;
  valid = v;
  all_ready = λ a lo hi.
      (ram_device, first_bus-find heap old_byte a (omega arith) (omega arith), refl, refl, refl);
}

-- The bus of an emulator that has loaded the file.
pub record IsLoaded (file : List ℕ) (phs : List Phdr) (b : Bus) : Type 0 where
  pub usable : IsUsable 0 b
  pub same_base : b.mmu.base ≡ ram_start
  pub same_size : b.mmu.size ≡ ram_size
  pub all_held : AllHeld b.mmu file phs
  pub next_block : b.mmu.curr_vaddr ≡ end_of ram_start phs

first_bus-IsLoaded :
    (heap : Heap) (old_byte : ℕ) (file : List ℕ) (phs : List Phdr) (entry : ℕ)
    → IsFile file phs entry
    → Ascend ram_start ram_size file ram_start phs
    → (m : Mmu) × (elf_load heap file (first_bus heap old_byte).mmu ≡ ok (some entry, m))
      × IsLoaded file phs (record (first_bus heap old_byte) { mmu = m })
unfolding bus_init
first_bus-IsLoaded heap old_byte file phs entry f asc =
    let bus = first_bus heap old_byte in
    let v = (first_bus-IsUsable heap old_byte).valid in
    let (m, run, valid, held, kept, next) =
      elf_load_lem heap file bus.mmu phs entry ram_start v f asc in
    (
      m,
      run,
      record {
        usable = with_mmu-IsUsable heap old_byte m valid kept.same_base kept.same_size;
        same_base = kept.same_base;
        same_size = kept.same_size;
        all_held = held;
        next_block = next;
      },
    )

emulator_init-shown :
    (heap : Heap) (video_init : Bus → Result (Bool × Bus)) (old_byte : ℕ)
    → (heap.grants_mmu && heap.grants_bytes && heap.grants_dirty && heap.grants_perm) ≡ true
    → ((bus : Bus) → video_init bus ≡ ok (true, bus))
    → emulator_init heap video_init old_byte ≡ ok (some (first_bus heap old_byte))
unfolding emulator_init
emulator_init-shown heap video_init old_byte grants shows = rw (
  mmu_init_lem heap ram_start ram_size grants (omega arith) (omega arith),
  shows (first_bus heap old_byte),
)

module _ {S : Type 0} (host : Host S) (rounds : ℕ) where
  -- `main`, with a file that can be loaded and one segment to load whose flags make it readable, comes to
  -- `emulator_run` with the file's entry point and a bus on which a program can be prepared and run:
  -- each segment to load stands in the memory, the next block to allocate begins where they end, and the
  -- readable one lies below that and can be read. The host has the memory; the video device reports
  -- success and leaves the bus as it is; the file is for 32 bits, little-endian, not empty and shorter
  -- than 2^32, its entry point is not 0, and its segments to load lie in ascending order in the memory of
  -- the emulator, each with no more bytes in the file than in the memory.
  pub main-emulator_run :
      (heap : Heap) (video_init : Bus → Result (Bool × Bus)) (old_byte : ℕ) (file : List ℕ)
      (argv0 argv1 : List ℕ) (s : S) (phs : List Phdr) (code : Phdr) (entry : ℕ)
      → (heap.grants_mmu && heap.grants_bytes && heap.grants_dirty && heap.grants_perm) ≡ true
      → ((bus : Bus) → video_init bus ≡ ok (true, bus))
      → 0 < length file
      → length file < 2 ^ 32
      → 0 < entry
      → IsFile file phs entry
      → Ascend ram_start ram_size file ram_start phs
      → Among code phs
      → code.p_type ≡ 1
      → bit_and code.p_flags 4 ≡ 4
      → (b : Bus) × (main host rounds heap video_init old_byte (some file) true argv0 argv1 s
          ≡ emulator_run host rounds b entry argv0 argv1 s)
        × IsLoaded file phs b
        × (code.p_vaddr + code.p_filesz ≤ b.mmu.curr_vaddr)
        × ((a : ℕ)
            → code.p_vaddr ≤ a
            → a < code.p_vaddr + code.p_filesz
            → allows (b.mmu.perm (a - b.mmu.base)) mperm_read ≡ true)
  unfolding main with_emulator loaded
  main-emulator_run heap video_init old_byte file argv0 argv1 s phs code entry grants shows pos
        small start f asc there is_load r =
      let bus = first_bus heap old_byte in
      let (m, run, l) = first_bus-IsLoaded heap old_byte file phs entry f asc in
      let end = Among-end_of ram_start ram_size file ram_start phs code asc there is_load in
      let low = Among-low ram_start ram_size file ram_start phs code asc there is_load in
      (
        record bus { mmu = m },
        rw (
          emulator_init-shown heap video_init old_byte grants shows,
          load_file_lem file pos small,
          emulator_load_elf_lem heap file bus entry m start run,
        ),
        l,
        rw l.next_block end,
        Among-readable m file phs code l.all_held there is_load (rw l.same_base low) r,
      )
