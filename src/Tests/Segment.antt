-- ===== src/Tests/Segment.antt =====
-- The theorems on src/mmu.c, applied to a segment of 64 bytes.
use criscv.Base.{
  ℕ, ◌+◌, ◌≤◌, ◌<◌, ◌≡◌, refl, arith, inl, inr, List, [], ◌∷◌, ok, stop, out_of_bounds,
}
use criscv.Mmu.{
  Mmu, access_denied, mmu_write_from, mmu_read_into, mmu_allocate, mmu_allocate_raw, mmu_add_memory,
  mmu_setperm, mmu_check_access, check_loop, allows, copy_in, perms_loop, dirty_loop, setperm_loop,
  align_size,
}
use criscv.Mmu.Transfer.{IsValid}
use criscv.Mmu.ReadBack.{mmu_read_into-mmu_write_from, mmu_write_from_frame}
use criscv.Mmu.Allocate.{mmu_allocate_disjoint}
use criscv.Mmu.Safe.{Call, write, read, allocate, perform_all, perform_all-IsValid}
use criscv.Mmu.Raw.{mmu_allocate_raw_lem, mmu_write_from_unmarked, mmu_add_memory_overflows}
use criscv.Tests.Sample.{segment, segment-IsValid, generous, value_or}

abbrev text : List ℕ
text = 7 ∷ 8 ∷ 9 ∷ []

-- A write of three bytes at offset 4.
abbrev with_text : Mmu
with_text = (value_or (mmu_write_from segment text 0x104 3) (0, segment)).1

stored : mmu_write_from segment text 0x104 3 ≡ ok (3, with_text)
unfolding mmu_write_from mmu_check_access check_loop allows copy_in perms_loop dirty_loop
stored = refl

mmu_read_into-mmu_write_from_example : mmu_read_into with_text 0x104 3 ≡ ok (3, text, with_text)
mmu_read_into-mmu_write_from_example =
    mmu_read_into-mmu_write_from segment with_text text 0x104 segment-IsValid (omega arith)
      (omega arith) (omega arith) (λ j p q. inl refl) stored

mmu_write_from_frame_example :
    (with_text.bytes 7 ≡ segment.bytes 7) × (with_text.perm 7 ≡ segment.perm 7)
mmu_write_from_frame_example =
    mmu_write_from_frame segment with_text text 0x104 3 0x107 segment-IsValid (omega arith)
      (omega arith) stored (omega arith) (inr (omega arith))

-- The page stays clean.
mmu_write_from_unmarked_example : with_text.dirty 0 ≡ segment.dirty 0
mmu_write_from_unmarked_example =
    mmu_write_from_unmarked segment with_text text 0x104 3 segment-IsValid (omega arith)
      (omega arith) refl stored 0

-- Blocks of 5 bytes and of 20.
abbrev first_block : Mmu
first_block = (value_or (mmu_allocate_raw segment 5) (0, segment)).1

abbrev second_block : Mmu
second_block = (value_or (mmu_allocate first_block 20 10) (0, segment)).1

first_allocated : mmu_allocate segment 5 10 ≡ ok (0x100, first_block)
unfolding mmu_allocate mmu_allocate_raw mmu_setperm setperm_loop align_size
first_allocated = refl

raw_allocated : mmu_allocate_raw segment 5 ≡ ok (0x100, first_block)
unfolding mmu_allocate mmu_allocate_raw mmu_setperm setperm_loop align_size
raw_allocated = refl

second_allocated : mmu_allocate first_block 20 10 ≡ ok (0x110, second_block)
unfolding mmu_allocate mmu_allocate_raw mmu_setperm setperm_loop align_size
second_allocated = refl

mmu_allocate_disjoint_example :
    (0x100 ≤ 0x100) × (0x100 + 5 ≤ 0x110) × (0x110 + 20 < 0x100 + 64) × IsValid second_block
mmu_allocate_disjoint_example =
    mmu_allocate_disjoint segment first_block second_block 5 20 10 10 0x100 0x110 segment-IsValid
      (omega arith) (omega arith) first_allocated second_allocated (omega arith) (omega arith)

mmu_allocate_raw_lem_example :
    (mmu_read_into first_block 0x101 3 ≡ ok (0, [], record first_block { state = access_denied }))
    × (m' : Mmu) × (mmu_write_from first_block text 0x101 3 ≡ ok (3, m'))
    × (mmu_read_into m' 0x101 3 ≡ ok (3, text, m'))
mmu_allocate_raw_lem_example =
    mmu_allocate_raw_lem segment first_block 5 0x100 1 text segment-IsValid (omega arith)
      raw_allocated (omega arith) (omega arith) (omega arith)

-- A call of each kind, the last of them outside the segment.
abbrev calls : List Call
calls = allocate 5 10 ∷ write text 0x100 ∷ read 0x101 2 ∷ read 0x13f 8 ∷ []

perform_all-IsValid_example : (m : Mmu) × (perform_all segment calls ≡ ok m) × IsValid m
perform_all-IsValid_example = perform_all-IsValid segment calls segment-IsValid (
  omega arith,
  ((omega arith, omega arith), ((omega arith, omega arith), ((omega arith, omega arith), tt))),
)

mmu_add_memory_overflows_example : mmu_add_memory generous segment 0x140 16 10 ≡ stop out_of_bounds
mmu_add_memory_overflows_example =
    mmu_add_memory_overflows generous segment 0x140 16 10 segment-IsValid refl refl refl
      (omega arith) (omega arith) (omega arith) (omega arith) (omega arith)
