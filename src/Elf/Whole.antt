-- ===== src/Elf/Whole.antt =====
-- A whole file: the loop over the program headers, and `elf_load`.
use criscv.Base.{
  ℕ, ◌+◌, ◌-◌, ◌≤◌, ◌<◌, ◌≡◌, refl, ◌∙◌, arith, true, false, ◌==◌, List, [], ◌∷◌, length, ok, some,
  inl, inr, eq→==,
}
use criscv.Mmu.{Heap, Mmu}
use criscv.Mmu.Loops.{within}
use criscv.Mmu.Transfer.{IsValid}
use criscv.Elf.{Phdr, member, load_segments, elf_load}
use criscv.Elf.Load.{IsLoadable, content, with_segment, load_segment-with_segment}
use criscv.Elf.Segments.{
  segment_perm-asked_perm, Headers, Ascend, end_of, HoldsSegment, AllHeld, SameBelow,
}

SameBelow-trans :
    (floor above : ℕ) (mmu m m' : Mmu)
    → floor ≤ above
    → SameBelow floor mmu m
    → SameBelow above m m'
    → SameBelow floor mmu m'
SameBelow-trans floor above mmu m m' le s s' = record {
  same_base = s'.same_base ∙ s.same_base;
  same_size = s'.same_size ∙ s.same_size;
  same_bytes = λ j h. s'.same_bytes j (omega (arith, s.same_base)) ∙ s.same_bytes j h;
  same_perm = λ j h. s'.same_perm j (omega (arith, s.same_base)) ∙ s.same_perm j h;
}

within-inside : (a n k j : ℕ) → k ≡ n → j < n → within a k (a + j) ≡ true
within-inside a n k j e h = ground arith

module _ (mmu : Mmu) (v : IsValid mmu) (file : List ℕ) (ph : Phdr)
    (l : IsLoadable mmu.base mmu.size file ph) where
  with_segment-IsValid : IsValid (with_segment mmu file ph)
  with_segment-IsValid = let a = l.low in let b = l.high in omega arith

  with_segment-SameBelow :
      (floor : ℕ) → floor ≤ ph.p_vaddr → SameBelow floor mmu (with_segment mmu file ph)
  with_segment-SameBelow floor le = record {
    same_base = refl;
    same_size = refl;
    same_bytes = λ j h.
        let out : within (ph.p_vaddr - mmu.base) (length (content file ph)) j ≡ false =
          ground arith in
        rw out;
    same_perm = λ j h.
        let out : within (ph.p_vaddr - mmu.base) (length (content file ph)) j ≡ false =
          ground arith in
        let out' : within (ph.p_vaddr - mmu.base) ph.p_memsz j ≡ false = ground arith in
        rw (out, out');
  }

  with_segment-HoldsSegment : HoldsSegment (with_segment mmu file ph) file ph
  with_segment-HoldsSegment = record {
    bytes_are = λ j h.
        let here : within (ph.p_vaddr - mmu.base) (length (content file ph))
              (ph.p_vaddr - mmu.base + j)
            ≡ true =
          within-inside (ph.p_vaddr - mmu.base) ph.p_filesz (length (content file ph)) j l.full h in
        let at : ph.p_vaddr - mmu.base + j - (ph.p_vaddr - mmu.base) ≡ j = omega arith in
        rw (here, at);
    perm_is = λ j h.
        let here : within (ph.p_vaddr - mmu.base) (length (content file ph))
              (ph.p_vaddr - mmu.base + j)
            ≡ true =
          within-inside (ph.p_vaddr - mmu.base) ph.p_filesz (length (content file ph)) j l.full h in
        rw here (segment_perm-asked_perm ph.p_flags);
  }

HoldsSegment-SameBelow :
    (m m' : Mmu) (file : List ℕ) (ph : Phdr) (above : ℕ)
    → m.base ≤ ph.p_vaddr
    → ph.p_vaddr + ph.p_filesz ≤ above
    → SameBelow above m m'
    → HoldsSegment m file ph
    → HoldsSegment m' file ph
HoldsSegment-SameBelow m m' file ph above lo le s held = record {
  bytes_are = λ j h.
      rw s.same_base (s.same_bytes (ph.p_vaddr - m.base + j) (omega arith) ∙ held.bytes_are j h);
  perm_is = λ j h.
      rw s.same_base (s.same_perm (ph.p_vaddr - m.base + j) (omega arith) ∙ held.perm_is j h);
}

-- What the loop leaves, from a memory of which everything below `floor` is kept.
pub record Loads (floor : ℕ) (mmu m : Mmu) (file : List ℕ) (phs : List Phdr) : Type 0 where
  pub valid : IsValid m
  pub kept : SameBelow floor mmu m
  pub held : AllHeld m file phs
  pub next_block : m.curr_vaddr ≡ end_of mmu.curr_vaddr phs

Ascend-moved :
    (b b' n n' : ℕ) (file : List ℕ) (floor : ℕ) (phs : List Phdr)
    → b' ≡ b
    → n' ≡ n
    → Ascend b n file floor phs
    → Ascend b' n' file floor phs
Ascend-moved b b' n n' file floor phs e e' a = rw (e, e') a

module _ (heap : Heap) (file : List ℕ) where
  one_loaded :
      (floor : ℕ) (mmu m : Mmu) (ph : Phdr) (phs : List Phdr)
      → IsValid mmu
      → ph.p_type ≡ 1
      → floor ≤ ph.p_vaddr
      → IsLoadable mmu.base mmu.size file ph
      → Loads (ph.p_vaddr + ph.p_memsz) (with_segment mmu file ph) m file phs
      → Loads floor mmu m file (ph ∷ phs)
  unfolding AllHeld end_of
  one_loaded floor mmu m ph phs v load le l rest =
      let le_size = l.less in
      record {
        valid = rest.valid;
        kept =
            SameBelow-trans floor (ph.p_vaddr + ph.p_memsz) mmu (with_segment mmu file ph) m
              (omega arith) (with_segment-SameBelow mmu v file ph l floor le) rest.kept;
        held = (
          λ _.
              HoldsSegment-SameBelow (with_segment mmu file ph) m file ph (ph.p_vaddr + ph.p_memsz)
                l.low (omega arith) rest.kept (with_segment-HoldsSegment mmu v file ph l),
          rest.held,
        );
        next_block = rw load rest.next_block;
      }

  one_skipped :
      (floor : ℕ) (mmu m : Mmu) (ph : Phdr) (phs : List Phdr)
      → (ph.p_type == 1) ≡ false
      → Loads floor mmu m file phs
      → Loads floor mmu m file (ph ∷ phs)
  unfolding AllHeld end_of
  one_skipped floor mmu m ph phs other rest = record {
    valid = rest.valid;
    kept = rest.kept;
    held = (λ e. absurd (ground arith), rest.held);
    next_block = rw other rest.next_block;
  }

  load_segments_lem :
      (phs : List Phdr) (at floor : ℕ) (mmu : Mmu)
      → IsValid mmu
      → Headers file at phs
      → Ascend mmu.base mmu.size file floor phs
      → (m : Mmu) × (load_segments (length phs) heap mmu file at ≡ ok (true, m))
        × Loads floor mmu m file phs
  unfolding load_segments Headers Ascend AllHeld end_of
  load_segments_lem [] at floor mmu v hs a = (
    mmu,
    refl,
    record {
      valid = v;
      kept = record {
        same_base = refl;
        same_size = refl;
        same_bytes = λ j h. refl;
        same_perm = λ j h. refl;
      };
      held = tt;
      next_block = refl;
    },
  )
  load_segments_lem (ph ∷ phs) at floor mmu v (h, hs) (inl (load, le, l, a)) =
      let (m, run, rest) =
        load_segments_lem phs (at + 32) (ph.p_vaddr + ph.p_memsz) (with_segment mmu file ph)
          (with_segment-IsValid mmu v file ph l) hs a in
      let is_load : (ph.p_type == 1) ≡ true = eq→== ph.p_type 1 load in
      (
        m,
        rw (h, is_load, load_segment-with_segment heap mmu file ph v l) run,
        one_loaded floor mmu m ph phs v load le l rest,
      )
  load_segments_lem (ph ∷ phs) at floor mmu v (h, hs) (inr (other, a)) =
      let (m, run, rest) = load_segments_lem phs (at + 32) floor mmu v hs a in
      (m, rw (h, other) run, one_skipped floor mmu m ph phs other rest)

-- What the members of the file's header say: 32 bits, little-endian, and where to find the program
-- headers and the entry point.
pub record IsFile (file : List ℕ) (phs : List Phdr) (entry : ℕ) : Type 0 where
  pub at : ℕ
  pub class_32 : member file 4 1 ≡ ok 1
  pub little_endian : member file 5 1 ≡ ok 1
  pub table_at : member file 28 4 ≡ ok at
  pub table_length : member file 44 2 ≡ ok (length phs)
  pub starts_at : member file 24 4 ≡ ok entry
  pub table : Headers file at phs

pub elf_load_lem :
    (heap : Heap) (file : List ℕ) (mmu : Mmu) (phs : List Phdr) (entry floor : ℕ)
    → IsValid mmu
    → IsFile file phs entry
    → Ascend mmu.base mmu.size file floor phs
    → (m : Mmu) × (elf_load heap file mmu ≡ ok (some entry, m))
      × IsValid m
      × AllHeld m file phs
      × SameBelow floor mmu m
      × (m.curr_vaddr ≡ end_of mmu.curr_vaddr phs)
unfolding elf_load
elf_load_lem heap file mmu phs entry floor v f a =
    let (m, run, l) = load_segments_lem heap file phs f.at floor mmu v f.table a in
    (
      m,
      rw (f.class_32, f.little_endian, f.table_at, f.table_length, run, f.starts_at),
      l.valid,
      l.held,
      l.kept,
      l.next_block,
    )
