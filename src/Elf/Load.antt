-- ===== src/Elf/Load.antt =====
-- A segment that is loaded can be read back.
use criscv.Base.{
  ℕ, ◌+◌, ◌-◌, ◌≤◌, ◌≡◌, refl, sym, ap, ◌∙◌, arith, bit_and, Bool, true, ◌==◌, List, length, take,
  drop, ok, ◌>>=◌, add64, le→leb, le→ltb, Bool-cases, inl, inr,
}
use criscv.Mmu.{
  Heap, Mmu, mperm_read, mperm_write, allows, mmu_add_memory, mmu_write_from, mmu_read_into,
  mmu_setperm,
}
use criscv.Mmu.Loops.{alter, all_allow, all_allow_intro, within}
use criscv.Mmu.Transfer.{IsValid, after_write, read_result, mmu_setperm_lem, mmu_read_into_lem}
use criscv.Mmu.ReadBack.{mmu_write_from-inside, slice-overlay, after_write-IsValid}
use criscv.Elf.{Phdr, segment_perm, load_segment}

module _ (mmu : Mmu) (v : IsValid mmu) (vaddr size : ℕ) (lo : mmu.base ≤ vaddr)
    (hi : vaddr + size ≤ mmu.base + mmu.size) where
  -- Memory that is already there.
  abbrev added : ℕ → Mmu
  added p = record mmu {
    curr_vaddr = vaddr + size;
    perm = alter (λ _. p) (vaddr - mmu.base) size mmu.perm;
  }

  mmu_add_memory-inside :
      (heap : Heap) (p : ℕ) → mmu_add_memory heap mmu vaddr size p ≡ ok (true, added p)
  unfolding mmu_add_memory
  mmu_add_memory-inside heap p =
      let top : add64 mmu.base mmu.size ≡ mmu.base + mmu.size = omega arith in
      let end : add64 vaddr size ≡ vaddr + size = omega arith in
      let m = record mmu { curr_vaddr = vaddr + size } in
      let valid : IsValid m = omega arith in
      rw (
        le→leb mmu.base vaddr lo,
        top,
        end,
        le→ltb (mmu.base + mmu.size) (vaddr + size) hi,
        mmu_setperm_lem m valid vaddr size p lo hi,
      )

  added-IsValid : (p : ℕ) → IsValid (added p)
  added-IsValid p = omega arith

added-writable :
    (mmu : Mmu) (v : IsValid mmu) (vaddr size n : ℕ) (lo : mmu.base ≤ vaddr)
    (hi : vaddr + size ≤ mmu.base + mmu.size)
    → n ≤ size
    → all_allow n (vaddr - mmu.base) mperm_write (added mmu v vaddr size lo hi 10) ≡ true
unfolding allows
added-writable mmu v vaddr size n lo hi less =
    all_allow_intro n (vaddr - mmu.base) mperm_write (added mmu v vaddr size lo hi 10)
      λ j from to. let here : within (vaddr - mmu.base) size j ≡ true = ground arith in rw here

-- The segment `m` after the bytes were written and given the permission `p`.
abbrev granted : Mmu → List ℕ → ℕ → ℕ → Mmu
granted m src vaddr p =
    let w = after_write m src vaddr in
    record w { perm = alter (λ _. p) (vaddr - m.base) (length src) w.perm }

module _ (m : Mmu) (v : IsValid m) (src : List ℕ) (vaddr p : ℕ) (lo : m.base ≤ vaddr)
    (hi : vaddr + length src ≤ m.base + m.size) (readable : allows p mperm_read ≡ true) where
  granted-IsValid : IsValid (granted m src vaddr p)
  granted-IsValid = omega arith

  mmu_read_into-granted :
      mmu_read_into (granted m src vaddr p) vaddr (length src)
      ≡ ok (length src, src, granted m src vaddr p)
  unfolding read_result
  mmu_read_into-granted =
      let g = granted m src vaddr p in
      let first = vaddr - m.base in
      let all : all_allow (length src) first mperm_read g ≡ true =
        all_allow_intro (length src) first mperm_read g λ j from to.
          let here : within first (length src) j ≡ true = ground arith in rw (here, readable) in
      rw (
        mmu_read_into_lem g granted-IsValid vaddr (length src) (omega arith) (omega arith),
        le→ltb vaddr m.base lo,
        le→ltb (m.base + m.size) (vaddr + length src) hi,
        all,
        slice-overlay src first m.bytes,
      )

pub segment_perm_readable : (f : ℕ) → bit_and f 4 ≡ 4 → allows (segment_perm f) mperm_read ≡ true
unfolding segment_perm allows
segment_perm_readable f r = elim (Bool-cases (bit_and f 2 == 0)) [
  | inl w ↦ elim (Bool-cases (bit_and f 1 == 0)) [ inl x ↦ rw (r, w, x) | inr x ↦ rw (r, w, x) ]
  | inr w ↦ elim (Bool-cases (bit_and f 1 == 0)) [ inl x ↦ rw (r, w, x) | inr x ↦ rw (r, w, x) ]
]

-- What was read, at the size of the program header.
load_at :
    (n k : ℕ) (src : List ℕ) (m : Mmu) (vaddr : ℕ)
    → k ≡ n
    → mmu_read_into m vaddr k ≡ ok (k, src, m)
    → mmu_read_into m vaddr n ≡ ok (n, src, m)
load_at n k src m vaddr same read =
    ap (mmu_read_into m vaddr) (sym same) ∙ read ∙ ap (λ j. ok (j, src, m)) same

write-setperm :
    (m : Mmu) (v : IsValid m) (src : List ℕ) (vaddr n p : ℕ)
    → length src ≡ n
    → m.base ≤ vaddr
    → vaddr + n ≤ m.base + m.size
    → all_allow n (vaddr - m.base) mperm_write m ≡ true
    → ◌>>=◌ {Y = Bool × Mmu}
        (mmu_write_from m src vaddr n)
        (λ r. ◌>>=◌ {Y = Bool × Mmu} (mmu_setperm r.1 vaddr n p) (λ m'. ok (true, m')))
      ≡ ok (true, granted m src vaddr p)
write-setperm m v src vaddr n p same lo hi writable = rw (← same) (
    let hi' : vaddr + length src ≤ m.base + m.size = rw same hi in
    let ok_write : all_allow (length src) (vaddr - m.base) mperm_write m ≡ true =
      rw same writable in
    rw (
      mmu_write_from-inside m src vaddr lo hi' v ok_write,
      mmu_setperm_lem (after_write m src vaddr) (after_write-IsValid m src vaddr v) vaddr
          (length src) p lo hi',
    ))

-- What the loader uses of a segment's header is in order: the bytes are in the file, take no more than
-- the size in memory, and the segment lies in memory that is already there.
pub record IsLoadable (base size : ℕ) (file : List ℕ) (ph : Phdr) : Type 0 where
  pub low : base ≤ ph.p_vaddr
  pub high : ph.p_vaddr + ph.p_memsz ≤ base + size
  pub less : ph.p_filesz ≤ ph.p_memsz
  pub full : length (take ph.p_filesz (drop ph.p_offset file)) ≡ ph.p_filesz

-- The bytes of a segment in the file, and the memory after it was loaded.
abbrev pub content : List ℕ → Phdr → List ℕ
content file ph = take ph.p_filesz (drop ph.p_offset file)

abbrev pub with_segment : Mmu → List ℕ → Phdr → Mmu
with_segment mmu file ph =
    granted
      (record mmu {
        curr_vaddr = ph.p_vaddr + ph.p_memsz;
        perm = alter (λ _. 10) (ph.p_vaddr - mmu.base) ph.p_memsz mmu.perm;
      })
      (content file ph) ph.p_vaddr (segment_perm ph.p_flags)

pub load_segment-with_segment :
    (heap : Heap) (mmu : Mmu) (file : List ℕ) (ph : Phdr)
    → IsValid mmu
    → IsLoadable mmu.base mmu.size file ph
    → load_segment heap mmu file ph ≡ ok (true, with_segment mmu file ph)
unfolding load_segment
load_segment-with_segment heap mmu file ph v l =
    let m = added mmu v ph.p_vaddr ph.p_memsz l.low l.high 10 in
    let valid = added-IsValid mmu v ph.p_vaddr ph.p_memsz l.low l.high 10 in
    rw (mmu_add_memory-inside mmu v ph.p_vaddr ph.p_memsz l.low l.high heap 10) (
      write-setperm m valid (content file ph) ph.p_vaddr ph.p_filesz (segment_perm ph.p_flags)
        l.full l.low (omega arith)
        (added-writable mmu v ph.p_vaddr ph.p_memsz ph.p_filesz l.low l.high l.less))

-- A segment of a program that its flags make readable, whose bytes are in the file and take no more
-- than its size in memory, and which lies in a well-formed memory that is already there, is loaded:
-- its bytes can be read back, the memory stays well-formed, and the next block to allocate begins
-- right above the segment.
pub load_segment_lem :
    (heap : Heap) (mmu : Mmu) (file : List ℕ) (ph : Phdr)
    → IsValid mmu
    → IsLoadable mmu.base mmu.size file ph
    → bit_and ph.p_flags 4 ≡ 4
    → (m : Mmu) × (load_segment heap mmu file ph ≡ ok (true, m))
      × (mmu_read_into m ph.p_vaddr ph.p_filesz
          ≡ ok (ph.p_filesz, take ph.p_filesz (drop ph.p_offset file), m))
      × (m.curr_vaddr ≡ ph.p_vaddr + ph.p_memsz)
      × IsValid m
load_segment_lem heap mmu file ph v l r =
    let src = content file ph in
    let p = segment_perm ph.p_flags in
    let m = added mmu v ph.p_vaddr ph.p_memsz l.low l.high 10 in
    let valid = added-IsValid mmu v ph.p_vaddr ph.p_memsz l.low l.high 10 in
    let fits : ph.p_vaddr + length src ≤ m.base + m.size = omega (arith, l.full, l.less, l.high) in
    let loaded = granted m src ph.p_vaddr p in
    let readable = segment_perm_readable ph.p_flags r in
    let read = mmu_read_into-granted m valid src ph.p_vaddr p l.low fits readable in
    (
      loaded,
      load_segment-with_segment heap mmu file ph v l,
      load_at ph.p_filesz (length src) src loaded ph.p_vaddr l.full read,
      refl,
      granted-IsValid m valid src ph.p_vaddr p l.low fits readable,
    )
