-- ===== src/Mmu/Raw.antt =====
-- Read-after-write memory, the pages that a write marks, and how the segment fails to grow.
use criscv.Base.{
  ℕ, zero, suc, ◌+◌, ◌-◌, ◌/◌, ◌^◌, ◌≤◌, ◌<◌, ◌≡◌, ◌≢◌, sym, ap, ◌∙◌, arith, true, false, ltb,
  Bool-cases, inl, inr, List, [], length, ok, stop, out_of_bounds, update, le→ltb, le→leb, lt→ltb,
  bit_and, add64, sub32,
}
use criscv.Mmu.{
  Mmu, Heap, access_denied, mperm_read, mperm_write, mperm_raw, allows, realloc, mmu_allocate_raw,
  mmu_write_from, mmu_read_into, mmu_setperm, setperm_loop, mmu_add_memory, extend, dirty_page_size,
}
use criscv.Mmu.Loops.{all_allow_intro, all_allow-deny}
use criscv.Mmu.Transfer.{
  IsValid, mmu_read_into_lem, mmu_write_from_lem, after_write, write_result, read_result,
}
use criscv.Mmu.Allocate.{mmu_allocate_lem, allocate_result}
use criscv.Mmu.ReadBack.{mmu_read_into-after_write, mmu_write_from-inside}

-- A range whose bytes are all writable and read-after-write.
module _ (m : Mmu) (v : IsValid m) (src : List ℕ) (vaddr : ℕ) (lo : m.base ≤ vaddr)
    (hi : vaddr + length src ≤ m.base + m.size)
    (raw : (j : ℕ) → vaddr - m.base ≤ j → j < vaddr - m.base + length src → m.perm j ≡ 10) where
  raw_read_denied :
      0 < length src
      → mmu_read_into m vaddr (length src) ≡ ok (0, [], record m { state = access_denied })
  unfolding allows read_result
  raw_read_denied pos =
      let first = vaddr - m.base in
      let denied : allows (m.perm first) mperm_read ≡ false =
        rw (raw first (omega arith) (omega arith)) in
      rw (
        mmu_read_into_lem m v vaddr (length src) (omega arith) (omega arith),
        le→ltb vaddr m.base lo,
        le→ltb (m.base + m.size) (vaddr + length src) hi,
        all_allow-deny (length src) first mperm_read m pos denied,
      )

  raw_write : mmu_write_from m src vaddr (length src) ≡ ok (length src, after_write m src vaddr)
  unfolding allows
  raw_write =
      mmu_write_from-inside m src vaddr lo hi v
        (all_allow_intro (length src) (vaddr - m.base) mperm_write m λ j p q. rw (raw j p q))

  raw_read_back :
      mmu_read_into (after_write m src vaddr) vaddr (length src)
      ≡ ok (length src, src, after_write m src vaddr)
  raw_read_back =
      mmu_read_into-after_write m src vaddr lo hi v
        λ j p q. inl (ap (λ (x : ℕ). bit_and x mperm_raw) (raw j p q))

-- A block that `mmu_allocate_raw` found in a well-formed segment, smaller than 2 ^ 31, is writable
-- and not readable: a read of at least one byte inside it is denied, and a write there returns its
-- size, after which a read returns what was written.
pub mmu_allocate_raw_lem :
    (mmu m : Mmu) (size a k : ℕ) (src : List ℕ)
    → IsValid mmu
    → size < 2 ^ 31
    → mmu_allocate_raw mmu size ≡ ok (a, m)
    → a ≢ 0
    → 0 < length src
    → k + length src ≤ size
    → (mmu_read_into m (a + k) (length src) ≡ ok (0, [], record m { state = access_denied }))
      × (m' : Mmu) × (mmu_write_from m src (a + k) (length src) ≡ ok (length src, m'))
      × (mmu_read_into m' (a + k) (length src) ≡ ok (length src, src, m'))
unfolding mmu_allocate_raw allocate_result
mmu_allocate_raw_lem mmu m size a k src v hs got na pos fits =
    let e = sym got ∙ mmu_allocate_lem mmu v size 10 hs in
    let valid : IsValid m = ground arith in
    let lo : m.base ≤ a + k = ground arith in
    let hi : a + k + length src ≤ m.base + m.size = ground arith in
    let raw : (j : ℕ) → a + k - m.base ≤ j → j < a + k - m.base + length src → m.perm j ≡ 10 =
      λ j p q. ground arith in
    (
      raw_read_denied m valid src (a + k) lo hi raw pos,
      after_write m src (a + k),
      raw_write m valid src (a + k) lo hi raw,
      raw_read_back m valid src (a + k) lo hi raw,
    )

-- The marks for dirty pages stop one short: in a well-formed segment, a write whose end lies in the
-- page where it begins marks no page at all, whatever it returns; the address and the size fit in
-- 32 bits.
pub mmu_write_from_unmarked :
    (mmu m : Mmu) (src : List ℕ) (vaddr n : ℕ)
    → IsValid mmu
    → vaddr < 2 ^ 32
    → length src < 2 ^ 32
    → (vaddr - mmu.base) / dirty_page_size ≡ (vaddr - mmu.base + length src) / dirty_page_size
    → mmu_write_from mmu src vaddr (length src) ≡ ok (n, m)
    → (i : ℕ) → m.dirty i ≡ mmu.dirty i
unfolding write_result
mmu_write_from_unmarked mmu m src vaddr n v hv hn page wrote i =
    let e = sym wrote ∙ mmu_write_from_lem mmu v src vaddr hv hn in ground arith

setperm_loop-out :
    (n i p : ℕ) (mmu : Mmu)
    → mmu.perm_len < i + n
    → 0 < n
    → setperm_loop n i p mmu ≡ stop out_of_bounds
unfolding setperm_loop
setperm_loop-out zero i p mmu h pos = absurd (omega arith)
setperm_loop-out (suc n) i p mmu h pos = elim (Bool-cases (ltb i mmu.perm_len)) [
  | inl e ↦ rw e (
      setperm_loop-out n (i + 1) p (record mmu { perm = update mmu.perm i p }) (omega arith)
        (ground arith))
  | inr e ↦ rw e
]

mmu_setperm-out :
    (mmu : Mmu) (addr size p : ℕ)
    → mmu.base ≤ addr
    → addr + size ≤ mmu.base + mmu.size
    → mmu.base + mmu.size < 2 ^ 33
    → addr < 2 ^ 32
    → 0 < size
    → mmu.perm_len < addr - mmu.base + size
    → mmu_setperm mmu addr size p ≡ stop out_of_bounds
unfolding mmu_setperm
mmu_setperm-out mmu addr size p lo hi top ha pos short =
    let first : sub32 addr mmu.base ≡ addr - mmu.base = omega arith in
    let rounds : add64 (addr - mmu.base) size - (addr - mmu.base) ≡ size = omega arith in
    rw
      (
        le→leb mmu.base addr lo,
        le→leb (add64 addr size) (add64 mmu.base mmu.size) (omega arith),
        first,
        rounds,
      )
      (setperm_loop-out size (addr - mmu.base) p mmu short pos)

-- The segment after all of its arrays were reallocated.
abbrev grown : Heap → Mmu → ℕ → Mmu
grown heap mmu n = record mmu {
  bytes = realloc mmu.bytes mmu.bytes_len heap.old_bytes;
  bytes_len = n;
  perm = realloc mmu.perm mmu.perm_len heap.old_perm;
  perm_len = n / 4;
  dirty = realloc mmu.dirty mmu.dirty_len heap.old_dirty;
  dirty_len = n;
  size = n;
}

extend-grown :
    (heap : Heap) (mmu : Mmu) (n : ℕ)
    → heap.grants_bytes ≡ true
    → heap.grants_perm ≡ true
    → heap.grants_dirty ≡ true
    → extend heap mmu n ≡ (true, grown heap mmu n)
unfolding extend
extend-grown heap mmu n gb gp gd = ground arith

-- A well-formed segment cannot grow: `mmu_add_memory` asks for a quarter of the permissions that it
-- then sets, so with every request granted, a block of at least one byte and fewer than 2 ^ 32 that
-- begins in the 32-bit space, not below the segment, and ends above it, takes the call outside `perm`.
pub mmu_add_memory_overflows :
    (heap : Heap) (mmu : Mmu) (addr size p : ℕ)
    → IsValid mmu
    → heap.grants_bytes ≡ true
    → heap.grants_perm ≡ true
    → heap.grants_dirty ≡ true
    → mmu.base ≤ addr
    → addr < 2 ^ 32
    → 0 < size
    → size < 2 ^ 32
    → mmu.base + mmu.size < addr + size
    → mmu_add_memory heap mmu addr size p ≡ stop out_of_bounds
unfolding mmu_add_memory
mmu_add_memory_overflows heap mmu addr size p v gb gp gd lo ha pos hs above =
    let top : add64 mmu.base mmu.size ≡ mmu.base + mmu.size = omega arith in
    let end : add64 addr size ≡ addr + size = omega arith in
    rw (
      le→leb mmu.base addr lo,
      top,
      end,
      lt→ltb (mmu.base + mmu.size) (addr + size) above,
      extend-grown heap mmu (addr + size - mmu.base) gb gp gd,
      mmu_setperm-out (grown heap mmu (addr + size - mmu.base)) addr size p lo (omega arith)
          (omega arith) ha pos (omega arith),
    )
