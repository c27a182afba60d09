-- ===== src/Elf.antt =====
-- src/elf32.h and src/elf32.c: a program's file, whose segments are loaded into the memory. A file is
-- the list of its bytes; no failure of `malloc` for the result is modelled.
pub mod Load
pub mod Segments
pub mod Whole
pub mod One
use criscv.Base.{
  ℕ, zero, suc, ◌+◌, ◌*◌, bit_and, bit_or, Bool, true, false, ◌&&◌, not, leb, ◌==◌, if◌then◌else◌,
  List, length, take, drop, get_or, Option, none, some, u64, Result, ok, stop, assert_failed,
  out_of_bounds, require, ◌>>=◌, ◌>>◌,
}
use criscv.Memory.{le_value}
use criscv.Mmu.{
  Heap, Mmu, mperm_exec, mperm_write, mperm_read, mperm_raw, mmu_add_memory, mmu_write_from,
  mmu_setperm,
}

-- A member of `n` bytes at an offset of the file.
unfoldable pub member : List ℕ → ℕ → ℕ → Result ℕ
member file offset n = do
  require (leb (offset + n) (length file)) out_of_bounds
  ok (le_value (take n (drop offset file)))

-- Of `Elf32_Phdr`, the members that the loader uses.
pub record Phdr : Type 0 where
  pub p_type : ℕ
  pub p_offset : ℕ
  pub p_vaddr : ℕ
  pub p_filesz : ℕ
  pub p_memsz : ℕ
  pub p_flags : ℕ

unfoldable pub read_phdr : List ℕ → ℕ → Result Phdr
unfolding member
read_phdr file at = do
  p_type ← member file at 4
  p_offset ← member file (at + 4) 4
  p_vaddr ← member file (at + 8) 4
  p_filesz ← member file (at + 16) 4
  p_memsz ← member file (at + 20) 4
  p_flags ← member file (at + 24) 4
  ok (record {
    p_type = p_type;
    p_offset = p_offset;
    p_vaddr = p_vaddr;
    p_filesz = p_filesz;
    p_memsz = p_memsz;
    p_flags = p_flags;
  })

-- The permission of a segment's bytes: one that is read-only is also read-after-write.
unfoldable pub segment_perm : ℕ → ℕ
segment_perm f =
    let read = if bit_and f 4 == 0 then 0 else mperm_read in
    let write = if bit_and f 2 == 0 then 0 else mperm_write in
    let exec = if bit_and f 1 == 0 then 0 else mperm_exec in
    let raw = if not (bit_and f 4 == 0) && (bit_and f 2 == 0) then mperm_raw else 0 in
    bit_or (bit_or (bit_or read write) exec) raw

-- A segment of the type LOAD, with whether there was memory for it.
unfoldable pub load_segment : Heap → Mmu → List ℕ → Phdr → Result (Bool × Mmu)
load_segment heap mmu file ph = do
  (added, m) ← mmu_add_memory heap mmu ph.p_vaddr ph.p_memsz (bit_or mperm_write mperm_raw)
  let rest =
      mmu_write_from m (take ph.p_filesz (drop ph.p_offset file)) ph.p_vaddr ph.p_filesz >>= λ r.
      mmu_setperm r.1 ph.p_vaddr ph.p_filesz (segment_perm ph.p_flags) >>= λ m'. ok (true, m')
  if added then rest else ok (false, m)

-- The loop over the program headers, those that are left, from offset `at`.
unfoldable pub load_segments : ℕ → Heap → Mmu → List ℕ → ℕ → Result (Bool × Mmu)
load_segments zero heap mmu file at = ok (true, mmu)
load_segments (suc left) heap mmu file at = do
  ph ← read_phdr file at
  (loaded, m) ← if ph.p_type == 1 then load_segment heap mmu file ph else ok (true, mmu)
  let rest = load_segments left heap m file (at + 32)
  if loaded then rest else ok (false, m)

-- The entry point of the program, or `none` for a null pointer, and the memory.
unfoldable pub elf_load : Heap → List ℕ → Mmu → Result (Option ℕ × Mmu)
unfolding member
elf_load heap elf_start mmu = do
  ei_class ← member elf_start 4 1
  require (ei_class == 1) assert_failed
  ei_data ← member elf_start 5 1
  require (ei_data == 1) assert_failed
  e_phoff ← member elf_start 28 4
  e_phnum ← member elf_start 44 2
  (loaded, m) ← load_segments e_phnum heap mmu elf_start e_phoff
  entry ← member elf_start 24 4
  ok (if loaded then some entry else none, m)
