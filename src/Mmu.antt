-- ===== src/Mmu.antt =====
-- src/mmu.h and src/mmu.c: the guest's memory segment, with a permission for each byte and a mark
-- for each dirty page. A function that changes `*mmu` returns the new record.
pub mod Loops
pub mod Transfer
pub mod ReadBack
pub mod Allocate
pub mod Safe
pub mod Raw
use criscv.Base.{
  ℕ, zero, suc, ◌+◌, ◌-◌, ◌/◌, ◌%◌, ◌^◌, bit_and, bit_or, Bool, true, false, ◌&&◌, ◌||◌, ltb, leb,
  ◌==◌, if◌then◌else◌, List, [], ◌∷◌, Result, ok, stop, assert_failed, out_of_bounds, require,
  ◌>>=◌, ◌>>◌, Option, none, some, u32, add64, sub32, update,
}

-- `mperm_t`, whose values are joined by `|`.
abbrev pub mperm_exec : ℕ
mperm_exec = 1

abbrev pub mperm_write : ℕ
mperm_write = 2

abbrev pub mperm_read : ℕ
mperm_read = 4

abbrev pub mperm_raw : ℕ
mperm_raw = 8

pub data MmuState : Type 0 where
  mmu_ok read_page_fault write_page_fault access_denied : MmuState

-- `mmu_t`. The three arrays are functions of the index, each with the number of its elements that
-- are allocated; `bytes` is the member `data`.
pub record Mmu : Type 0 where
  pub size : ℕ
  pub base : ℕ
  pub curr_vaddr : ℕ
  pub bytes : ℕ → ℕ
  pub bytes_len : ℕ
  pub perm : ℕ → ℕ
  pub perm_len : ℕ
  pub dirty : ℕ → Bool
  pub dirty_len : ℕ
  pub state : MmuState

abbrev pub dirty_page_size : ℕ
dirty_page_size = 64

-- The loop of `mmu_setperm` at index `i`, with the rounds that are left.
unfoldable pub setperm_loop : ℕ → ℕ → ℕ → Mmu → Result Mmu
setperm_loop zero i p mmu = ok mmu
setperm_loop (suc left) i p mmu = do
  require (ltb i mmu.perm_len) out_of_bounds
  setperm_loop left (i + 1) p (record mmu { perm = update mmu.perm i p })

unfoldable pub mmu_setperm : Mmu → ℕ → ℕ → ℕ → Result Mmu
mmu_setperm mmu vaddr size p = do
  require (leb mmu.base vaddr) assert_failed
  require (leb (add64 vaddr size) (add64 mmu.base mmu.size)) assert_failed
  let first = sub32 vaddr mmu.base
  setperm_loop (add64 first size - first) first p mmu

-- What the allocator answers: whether each request is granted, and what an object that nothing
-- has written yet holds.
pub record Heap : Type 0 where
  pub grants_mmu : Bool
  pub grants_bytes : Bool
  pub grants_dirty : Bool
  pub grants_perm : Bool
  pub old_state : MmuState
  pub old_bytes : ℕ → ℕ
  pub old_perm : ℕ → ℕ
  pub old_dirty : ℕ → Bool

-- `none` is the null pointer.
unfoldable pub mmu_init : Heap → ℕ → ℕ → Result (Option Mmu)
mmu_init heap base size =
    if heap.grants_mmu && heap.grants_bytes && heap.grants_dirty && heap.grants_perm
    then (mmu_setperm fresh base size (bit_or mperm_write mperm_raw) >>= λ mmu. ok (some mmu))
    else ok none
  where
    fresh : Mmu
    fresh = record {
      size = size;
      base = base;
      curr_vaddr = base;
      bytes = λ _. 0;
      bytes_len = size;
      perm = heap.old_perm;
      perm_len = size;
      dirty = λ _. false;
      dirty_len = size / dirty_page_size + 1;
      state = heap.old_state;
    }

-- `realloc` keeps what fits; the rest of a grown object is indeterminate.
abbrev pub realloc {ℓ} : {A : Type ℓ} → (ℕ → A) → ℕ → (ℕ → A) → ℕ → A
realloc old len rest i = if ltb i len then old i else rest i

-- The three calls of `realloc`. `perm` gets `new_size` bytes, and its elements have four each.
unfoldable pub extend : Heap → Mmu → ℕ → Bool × Mmu
extend heap mmu new_size =
    let with_bytes = record mmu {
      bytes = realloc mmu.bytes mmu.bytes_len heap.old_bytes;
      bytes_len = new_size;
    } in
    let with_perm = record with_bytes {
      perm = realloc mmu.perm mmu.perm_len heap.old_perm;
      perm_len = new_size / 4;
    } in
    let with_dirty = record with_perm {
      dirty = realloc mmu.dirty mmu.dirty_len heap.old_dirty;
      dirty_len = new_size;
      size = new_size;
    } in
    if heap.grants_bytes
    then (if heap.grants_perm
        then (if heap.grants_dirty then (true, with_dirty) else (false, with_perm))
        else (false, with_bytes))
    else (false, mmu)

-- The segment only grows upwards.
unfoldable pub mmu_add_memory : Heap → Mmu → ℕ → ℕ → ℕ → Result (Bool × Mmu)
mmu_add_memory heap mmu addr size p = do
  require (leb mmu.base addr) assert_failed
  let top = add64 addr size
  let (grown, m) =
      if ltb (add64 mmu.base mmu.size) top
      then extend heap mmu (top - mmu.base)
      else (true, record mmu { curr_vaddr = top })
  if grown then (mmu_setperm m addr size p >>= λ m'. ok (true, m')) else ok (false, m)

-- The size of a block in memory: a multiple of 16.
unfoldable pub align_size : ℕ → ℕ
align_size size = bit_and (add64 size 0x0f) 0xfffffff0

-- 0 is returned where the segment has no room.
unfoldable pub mmu_allocate : Mmu → ℕ → ℕ → Result (ℕ × Mmu)
unfolding align_size
mmu_allocate mmu size p =
    let aligned_size = align_size size in
    let curr_vaddr = u32 mmu.curr_vaddr in
    let next = add64 curr_vaddr aligned_size in
    if leb (add64 mmu.base mmu.size) next then ok (0, mmu) else do
      require (ltb aligned_size next) assert_failed
      m ← mmu_setperm (record mmu { curr_vaddr = next }) curr_vaddr size p
      ok (curr_vaddr, m)

unfoldable pub mmu_allocate_raw : Mmu → ℕ → Result (ℕ × Mmu)
mmu_allocate_raw mmu size = mmu_allocate mmu size (bit_or mperm_write mperm_raw)

-- The tests of `mmu_check_access` on the permission `p` of one byte.
unfoldable pub allows : ℕ → ℕ → Bool
allows p perm =
    (bit_and p mperm_read == perm)
    || (bit_and p mperm_write == perm)
    || (bit_and p mperm_exec == perm)
    || ((bit_and p mperm_raw == mperm_raw) && (perm == mperm_write))

-- The loop of `mmu_check_access`.
unfoldable pub check_loop : ℕ → ℕ → ℕ → Mmu → Result Bool
check_loop zero i perm mmu = ok true
check_loop (suc left) i perm mmu = do
  require (ltb i mmu.perm_len) out_of_bounds
  if allows (mmu.perm i) perm then check_loop left (i + 1) perm mmu else ok false

unfoldable pub mmu_check_access : Mmu → ℕ → ℕ → ℕ → Result Bool
mmu_check_access mmu vaddr size perm =
    let first = sub32 vaddr mmu.base in check_loop (add64 first size - first) first perm mmu

-- `memcpy` into the segment from a buffer, and out of it.
unfoldable pub copy_in : ℕ → ℕ → List ℕ → Mmu → Result Mmu
copy_in zero i src mmu = ok mmu
copy_in (suc left) i [] mmu = stop out_of_bounds
copy_in (suc left) i (x ∷ src) mmu = do
  require (ltb i mmu.bytes_len) out_of_bounds
  copy_in left (i + 1) src (record mmu { bytes = update mmu.bytes i x })

unfoldable pub copy_out : ℕ → ℕ → Mmu → Result (List ℕ)
copy_out zero i mmu = ok []
copy_out (suc left) i mmu = do
  require (ltb i mmu.bytes_len) out_of_bounds
  rest ← copy_out left (i + 1) mmu
  ok (mmu.bytes i ∷ rest)

-- The new permission of a byte that was written: a read-after-write byte becomes readable.
unfoldable pub written : ℕ → ℕ
written p =
    if bit_and p mperm_raw == mperm_raw
    then bit_or (bit_or mperm_read mperm_write) (bit_and p mperm_exec)
    else p

-- The two loops at the end of `mmu_write_from`.
unfoldable pub perms_loop : ℕ → ℕ → Mmu → Result Mmu
perms_loop zero i mmu = ok mmu
perms_loop (suc left) i mmu = do
  require (ltb i mmu.perm_len) out_of_bounds
  perms_loop left (i + 1) (record mmu { perm = update mmu.perm i (written (mmu.perm i)) })

unfoldable pub dirty_loop : ℕ → ℕ → Mmu → Result Mmu
dirty_loop zero i mmu = ok mmu
dirty_loop (suc left) i mmu = do
  require (ltb i mmu.dirty_len) out_of_bounds
  dirty_loop left (i + 1) (record mmu { dirty = update mmu.dirty i true })

-- The range test that begins both transfers.
abbrev pub outside : Mmu → ℕ → ℕ → Bool
outside mmu vaddr size = ltb vaddr mmu.base || ltb (add64 mmu.base mmu.size) (add64 vaddr size)

-- What `mmu_write_from` does once the access is allowed, from index `first` on.
unfoldable pub write_allowed : Mmu → List ℕ → ℕ → ℕ → Result (ℕ × Mmu)
write_allowed mmu src first size = do
  let last = add64 first size
  let dbi = first / dirty_page_size
  copied ← copy_in size first src (record mmu { state = mmu_ok })
  opened ← perms_loop (last - first) first copied
  marked ← dirty_loop (last / dirty_page_size - dbi) dbi opened
  ok (size, marked)

-- The number of bytes written, which is 0 on a fault.
unfoldable pub mmu_write_from : Mmu → List ℕ → ℕ → ℕ → Result (ℕ × Mmu)
unfolding write_allowed
mmu_write_from mmu src vaddr size =
    if outside mmu vaddr size then ok (0, record mmu { state = read_page_fault }) else do
      require (leb mmu.base vaddr) assert_failed
      require (leb vaddr (add64 mmu.base mmu.size)) assert_failed
      allowed ← mmu_check_access mmu vaddr size mperm_write
      if allowed
          then write_allowed mmu src (sub32 vaddr mmu.base) size
          else ok (0, record mmu { state = access_denied })

-- What `mmu_read_into` does once the access is allowed.
unfoldable pub read_allowed : Mmu → ℕ → ℕ → Result (ℕ × List ℕ × Mmu)
read_allowed mmu first size = do
  buf ← copy_out size first mmu
  ok (size, buf, record mmu { state = mmu_ok })

-- The number of bytes read, which is 0 on a fault, and the bytes; then the buffer is left alone.
unfoldable pub mmu_read_into : Mmu → ℕ → ℕ → Result (ℕ × List ℕ × Mmu)
unfolding read_allowed
mmu_read_into mmu vaddr size =
    if outside mmu vaddr size then ok (0, [], record mmu { state = write_page_fault }) else do
      allowed ← mmu_check_access mmu vaddr size mperm_read
      if allowed
          then read_allowed mmu (sub32 vaddr mmu.base) size
          else ok (0, [], record mmu { state = access_denied })
