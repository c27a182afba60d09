-- ===== src/Tests/Image.antt =====
-- A whole file, with a note and one segment to load, and `main` with it.
use criscv.Base.{ℕ, ◌-◌, ◌≤◌, ◌<◌, ◌≡◌, refl, arith, [], ◌∷◌, List, ok, some, inl, inr, true}
use criscv.Config.{ram_start, ram_size}
use criscv.Mmu.{Mmu, mperm_read, allows}
use criscv.Memory.{le_value}
use criscv.Bus.{Bus}
use criscv.Elf.{Phdr, read_phdr, member}
use criscv.Elf.Segments.{Headers, Ascend}
use criscv.Elf.Whole.{IsFile}
use criscv.Emulator.Main.{emulator_run, main}
use criscv.Emulator.Load.{IsLoaded, main-emulator_run}
use criscv.Tests.Sample.{sample_host, generous}

-- `addi x17, x0, 93` and `ecall`, at 0x10000.
abbrev image : List ℕ
image =
    127 ∷ 69 ∷ 76 ∷ 70 ∷ 1 ∷ 1 ∷ 1 ∷ 0 ∷ 0 ∷ 0 ∷ 0 ∷ 0 ∷ 0 ∷ 0 ∷ 0 ∷ 0 ∷ 2 ∷ 0 ∷ 243 ∷ 0 ∷ 1 ∷ 0 ∷ 0
    ∷ 0 ∷ 0 ∷ 0 ∷ 1 ∷ 0 ∷ 52 ∷ 0 ∷ 0 ∷ 0 ∷ 0 ∷ 0 ∷ 0 ∷ 0 ∷ 0 ∷ 0 ∷ 0 ∷ 0 ∷ 52 ∷ 0 ∷ 32 ∷ 0 ∷ 2 ∷ 0
    ∷ 0 ∷ 0 ∷ 0 ∷ 0 ∷ 0 ∷ 0 ∷ 4 ∷ 0 ∷ 0 ∷ 0 ∷ 0 ∷ 0 ∷ 0 ∷ 0 ∷ 0 ∷ 0 ∷ 0 ∷ 0 ∷ 0 ∷ 0 ∷ 0 ∷ 0 ∷ 0 ∷ 0
    ∷ 0 ∷ 0 ∷ 0 ∷ 0 ∷ 0 ∷ 0 ∷ 0 ∷ 0 ∷ 0 ∷ 0 ∷ 0 ∷ 0 ∷ 0 ∷ 0 ∷ 1 ∷ 0 ∷ 0 ∷ 0 ∷ 116 ∷ 0 ∷ 0 ∷ 0 ∷ 0
    ∷ 0 ∷ 1 ∷ 0 ∷ 0 ∷ 0 ∷ 1 ∷ 0 ∷ 8 ∷ 0 ∷ 0 ∷ 0 ∷ 16 ∷ 0 ∷ 0 ∷ 0 ∷ 5 ∷ 0 ∷ 0 ∷ 0 ∷ 4 ∷ 0 ∷ 0 ∷ 0
    ∷ 147 ∷ 8 ∷ 208 ∷ 5 ∷ 115 ∷ 0 ∷ 0 ∷ 0 ∷ []

abbrev note_header : Phdr
note_header = record {
  p_type = 4;
  p_offset = 0;
  p_vaddr = 0;
  p_filesz = 0;
  p_memsz = 0;
  p_flags = 0;
}

abbrev code_header : Phdr
code_header = record {
  p_type = 1;
  p_offset = 116;
  p_vaddr = 0x10000;
  p_filesz = 8;
  p_memsz = 16;
  p_flags = 5;
}

abbrev headers : List Phdr
headers = note_header ∷ code_header ∷ []

image-IsFile : IsFile image headers 0x10000
unfolding member read_phdr le_value Headers
image-IsFile = record {
  at = 52;
  class_32 = refl;
  little_endian = refl;
  table_at = refl;
  table_length = refl;
  starts_at = refl;
  table = (refl, (refl, tt));
}

headers-Ascend : Ascend ram_start ram_size image ram_start headers
unfolding Ascend
headers-Ascend = inr (
  refl,
  inl (
    refl,
    omega arith,
    record { low = omega arith; high = omega arith; less = omega arith; full = refl },
    tt,
  ),
)

main-emulator_run_example :
    (b : Bus) × (main sample_host 20 generous
        (λ x. ok (true, x))
        7
        (some image)
        true
        (46 ∷ 0 ∷ [])
        (104 ∷ 0 ∷ [])
        4
      ≡ emulator_run sample_host 20 b 0x10000 (46 ∷ 0 ∷ []) (104 ∷ 0 ∷ []) 4)
    × IsLoaded image headers b
    × (0x10008 ≤ b.mmu.curr_vaddr)
    × ((a : ℕ) → 0x10000 ≤ a → a < 0x10008 → allows (b.mmu.perm (a - b.mmu.base)) mperm_read ≡ true)
main-emulator_run_example =
    main-emulator_run sample_host 20 generous (λ x. ok (true, x)) 7 image (46 ∷ 0 ∷ [])
      (104 ∷ 0 ∷ []) 4 headers code_header 0x10000 refl (λ bus. refl) (omega arith) (omega arith)
      (omega arith) image-IsFile headers-Ascend (inr (inl refl)) refl refl
