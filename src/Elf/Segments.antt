-- ===== src/Elf/Segments.antt =====
-- What is said of the program headers of a file and of the memory that they describe.
use criscv.Base.{ℕ, ◌+◌, ◌-◌, ◌%◌, ◌/◌, ◌≤◌, ◌<◌, ◌≡◌, false, ◌==◌, List, [], ◌∷◌, get_or, ok, ◌⊎◌}
use criscv.Base.{if◌then◌else◌, arith}
use criscv.Base.Bits.{and_1, and_2, and_4}
use criscv.Mmu.{Mmu}
use criscv.Elf.{Phdr, read_phdr, segment_perm}
use criscv.Elf.Load.{IsLoadable, content}

-- The program headers of the file, from offset `at` on.
unfoldable pub Headers : List ℕ → ℕ → List Phdr → Type 0
Headers file at [] = Unit {0}
Headers file at (ph ∷ phs) = (read_phdr file at ≡ ok ph) × Headers file (at + 32) phs

-- The segments to load lie in the memory that is there, each above the one before it.
unfoldable pub Ascend : ℕ → ℕ → List ℕ → ℕ → List Phdr → Type 0
Ascend base size file floor [] = Unit {0}
Ascend base size file floor (ph ∷ phs) =
    ((ph.p_type ≡ 1)
      × (floor ≤ ph.p_vaddr)
      × IsLoadable base size file ph
      × Ascend base size file (ph.p_vaddr + ph.p_memsz) phs)
    ⊎ (((ph.p_type == 1) ≡ false) × Ascend base size file floor phs)

-- Where the memory that the segments take ends.
unfoldable pub end_of : ℕ → List Phdr → ℕ
end_of floor [] = floor
end_of floor (ph ∷ phs) = end_of (if ph.p_type == 1 then ph.p_vaddr + ph.p_memsz else floor) phs

-- What the flags of a segment ask for, R = 4, W = 2 and X = 1, in the bits of the permissions: the same
-- three, and read-after-write where there is R without W.
abbrev pub asked_perm : ℕ → ℕ
asked_perm flags = flags % 8 + (if flags % 8 / 2 == 2 then 8 else 0)

pub segment_perm-asked_perm : (f : ℕ) → segment_perm f ≡ asked_perm f
unfolding segment_perm
segment_perm-asked_perm f = ground (arith, and_4 f, and_2 f, and_1 f)

-- The bytes of a segment of the file stand at its address, with the permission of its flags.
pub record HoldsSegment (m : Mmu) (file : List ℕ) (ph : Phdr) : Type 0 where
  pub bytes_are :
      (j : ℕ) → j < ph.p_filesz → m.bytes (ph.p_vaddr - m.base + j) ≡ get_or (content file ph) j 0
  pub perm_is : (j : ℕ) → j < ph.p_filesz → m.perm (ph.p_vaddr - m.base + j) ≡ asked_perm ph.p_flags

-- Each segment to load does so.
unfoldable pub AllHeld : Mmu → List ℕ → List Phdr → Type 0
AllHeld m file [] = Unit {0}
AllHeld m file (ph ∷ phs) = ((ph.p_type ≡ 1) → HoldsSegment m file ph) × AllHeld m file phs

-- The same memory below an address.
pub record SameBelow (floor : ℕ) (mmu m : Mmu) : Type 0 where
  pub same_base : m.base ≡ mmu.base
  pub same_size : m.size ≡ mmu.size
  pub same_bytes : (j : ℕ) → j < floor - mmu.base → m.bytes j ≡ mmu.bytes j
  pub same_perm : (j : ℕ) → j < floor - mmu.base → m.perm j ≡ mmu.perm j

-- One of the program headers.
abbrev pub Among : Phdr → List Phdr → Type 0
Among ph [] = ⊥
Among ph (p ∷ phs) = (p ≡ ph) ⊎ Among ph phs
