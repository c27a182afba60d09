-- ===== src/Elf/One.antt =====
-- One segment among those that were loaded.
use criscv.Base.{
  ℕ, ◌+◌, ◌-◌, ◌≤◌, ◌<◌, ◌≡◌, arith, true, ◌==◌, bit_and, List, [], ◌∷◌, inl, inr, eq→==,
}
use criscv.Mmu.{Mmu, mperm_read, allows}
use criscv.Elf.{Phdr}
use criscv.Elf.Load.{segment_perm_readable}
use criscv.Elf.Segments.{segment_perm-asked_perm, Ascend, AllHeld, HoldsSegment, Among, end_of}

module _ (base size : ℕ) (file : List ℕ) where
  end_of-above :
      (floor : ℕ) (phs : List Phdr) → Ascend base size file floor phs → floor ≤ end_of floor phs
  unfolding Ascend end_of
  end_of-above floor [] a = omega arith
  end_of-above floor (ph ∷ phs) (inl (load, le, l, a)) =
      let rest = end_of-above (ph.p_vaddr + ph.p_memsz) phs a in
      let is_load : (ph.p_type == 1) ≡ true = eq→== ph.p_type 1 load in rw is_load (omega arith)
  end_of-above floor (ph ∷ phs) (inr (other, a)) = rw other (end_of-above floor phs a)

  pub Among-end_of :
      (floor : ℕ) (phs : List Phdr) (ph : Phdr)
      → Ascend base size file floor phs
      → Among ph phs
      → ph.p_type ≡ 1
      → ph.p_vaddr + ph.p_filesz ≤ end_of floor phs
  unfolding Ascend end_of
  Among-end_of floor [] ph a there is_load = elim there [ ]
  Among-end_of floor (p ∷ phs) ph (inl (load, le, l, a)) (inl e) is_load =
      let above = end_of-above (p.p_vaddr + p.p_memsz) phs a in
      let here : (p.p_type == 1) ≡ true = eq→== p.p_type 1 load in
      let less = l.less in rw (← e) (rw here (omega arith))
  Among-end_of floor (p ∷ phs) ph (inl (load, le, l, a)) (inr there) is_load =
      let here : (p.p_type == 1) ≡ true = eq→== p.p_type 1 load in
      rw here (Among-end_of (p.p_vaddr + p.p_memsz) phs ph a there is_load)
  Among-end_of floor (p ∷ phs) ph (inr (other, a)) (inl e) is_load =
      let here : p.p_type ≡ 1 = rw e is_load in absurd (ground arith)
  Among-end_of floor (p ∷ phs) ph (inr (other, a)) (inr there) is_load =
      rw other (Among-end_of floor phs ph a there is_load)

  pub Among-low :
      (floor : ℕ) (phs : List Phdr) (ph : Phdr)
      → Ascend base size file floor phs
      → Among ph phs
      → ph.p_type ≡ 1
      → base ≤ ph.p_vaddr
  unfolding Ascend
  Among-low floor [] ph a there is_load = elim there [ ]
  Among-low floor (p ∷ phs) ph (inl (load, le, l, a)) (inl e) is_load = rw (← e) l.low
  Among-low floor (p ∷ phs) ph (inl (load, le, l, a)) (inr there) is_load =
      Among-low (p.p_vaddr + p.p_memsz) phs ph a there is_load
  Among-low floor (p ∷ phs) ph (inr (other, a)) (inl e) is_load =
      let here : p.p_type ≡ 1 = rw e is_load in absurd (ground arith)
  Among-low floor (p ∷ phs) ph (inr (other, a)) (inr there) is_load =
      Among-low floor phs ph a there is_load

pub Among-HoldsSegment :
    (m : Mmu) (file : List ℕ) (phs : List Phdr) (ph : Phdr)
    → AllHeld m file phs
    → Among ph phs
    → ph.p_type ≡ 1
    → HoldsSegment m file ph
unfolding AllHeld
Among-HoldsSegment m file [] ph held there is_load = elim there [ ]
Among-HoldsSegment m file (p ∷ phs) ph held (inl e) is_load = rw (← e) (held.0 (rw e is_load))
Among-HoldsSegment m file (p ∷ phs) ph held (inr there) is_load =
    Among-HoldsSegment m file phs ph held.1 there is_load

-- Such a segment can be read, if its flags say so.
pub Among-readable :
    (m : Mmu) (file : List ℕ) (phs : List Phdr) (ph : Phdr)
    → AllHeld m file phs
    → Among ph phs
    → ph.p_type ≡ 1
    → m.base ≤ ph.p_vaddr
    → bit_and ph.p_flags 4 ≡ 4
    → (a : ℕ) → ph.p_vaddr ≤ a
    → a < ph.p_vaddr + ph.p_filesz
    → allows (m.perm (a - m.base)) mperm_read ≡ true
Among-readable m file phs ph held there is_load low r a lo hi =
    let h = Among-HoldsSegment m file phs ph held there is_load in
    let same : ph.p_vaddr - m.base + (a - ph.p_vaddr) ≡ a - m.base = omega arith in
    let perm = h.perm_is (a - ph.p_vaddr) (omega arith) in
    rw (← same, perm, ← segment_perm-asked_perm ph.p_flags) (segment_perm_readable ph.p_flags r)
