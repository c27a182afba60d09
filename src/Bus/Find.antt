-- ===== src/Bus/Find.antt =====
-- Which device an address leads to, and that an access changes no device's place.
use criscv.Base.{
  ℕ, zero, suc, ◌≡◌, refl, sym, ◌∙◌, true, false, arith, Bool-cases, List, [], ◌∷◌, some, inl, inr,
}
use criscv.Mmio.{MmioDevice}
use criscv.Bus.{find, covers, put}

-- `dev'` answers at the same addresses, with the same functions, as `dev`.
pub record SamePlace (dev dev' : MmioDevice) : Type 0 where
  pub same_base : dev'.base_address ≡ dev.base_address
  pub same_size : dev'.size ≡ dev.size
  pub same_perm : dev'.perm ≡ dev.perm
  pub same_driver : dev'.driver ≡ dev.driver

covers-SamePlace :
    (dev dev' : MmioDevice) (a : ℕ) → SamePlace dev dev' → covers dev' a ≡ covers dev a
unfolding covers
covers-SamePlace dev dev' a s = rw (s.same_base, s.same_size)

-- A device that changes in place is found again, as it now is.
pub find-put :
    (ds : List MmioDevice) (a i : ℕ) (dev dev' : MmioDevice)
    → find ds a ≡ some (i, dev)
    → SamePlace dev dev'
    → find (put ds i dev') a ≡ some (i, dev')
unfolding find put
find-put [] a i dev dev' h s = cc
find-put (d ∷ ds) a zero dev dev' h s = elim (Bool-cases (covers d a)) [
  | inl e ↦
      let same : d ≡ dev = ground arith in rw (covers-SamePlace dev dev' a s) (rw (← same) (rw e))
  | inr e ↦ ground arith
]
find-put (d ∷ ds) a (suc i) dev dev' h s = elim (Bool-cases (covers d a)) [
  | inl e ↦ ground arith
  | inr e ↦
      let inner : find ds a ≡ some (i, dev) = ground arith in
      rw (e, find-put ds a i dev dev' inner s)
]

SamePlace-refl : (dev : MmioDevice) → SamePlace dev dev
SamePlace-refl dev = record {
  same_base = refl;
  same_size = refl;
  same_perm = refl;
  same_driver = refl;
}

-- A device that changes in place does not change which device another address leads to.
pub find-put-elsewhere :
    (ds : List MmioDevice) (a b i j : ℕ) (dev dev' d : MmioDevice)
    → find ds a ≡ some (i, dev)
    → SamePlace dev dev'
    → find ds b ≡ some (j, d)
    → (d' : MmioDevice) × (find (put ds i dev') b ≡ some (j, d')) × SamePlace d d'
unfolding find put
find-put-elsewhere [] a b i j dev dev' d h s k = cc
find-put-elsewhere (x ∷ ds) a b zero zero dev dev' d h s k =
    let here : x ≡ dev = ground arith in
    let there : x ≡ d = ground arith in
    let covered : covers x b ≡ true = ground arith in
    let same : d ≡ dev = sym there ∙ here in
    (dev', rw (covers-SamePlace dev dev' b s) (rw (← here) (rw covered)), rw same s)
find-put-elsewhere (x ∷ ds) a b zero (suc j) dev dev' d h s k =
    let here : x ≡ dev = ground arith in
    let covered : covers x b ≡ false = ground arith in
    let later : find ds b ≡ some (j, d) = ground arith in
    (d, rw (covers-SamePlace dev dev' b s) (rw (← here) (rw (covered, later))), SamePlace-refl d)
find-put-elsewhere (x ∷ ds) a b (suc i) zero dev dev' d h s k =
    let there : x ≡ d = ground arith in
    let covered : covers x b ≡ true = ground arith in (d, rw (covered, there), SamePlace-refl d)
find-put-elsewhere (x ∷ ds) a b (suc i) (suc j) dev dev' d h s k =
    let covered : covers x b ≡ false = ground arith in
    let later : find ds b ≡ some (j, d) = ground arith in
    let inner : find ds a ≡ some (i, dev) = ground arith in
    let (d', found, same) = find-put-elsewhere ds a b i j dev dev' d inner s later in
    (d', rw (covered, found), same)

-- One place has one device.
pub find_same :
    (ds : List MmioDevice) (a b i : ℕ) (dev d : MmioDevice)
    → find ds a ≡ some (i, dev)
    → find ds b ≡ some (i, d)
    → d ≡ dev
unfolding find
find_same [] a b i dev d h k = cc
find_same (x ∷ ds) a b zero dev d h k =
    let here : x ≡ dev = ground arith in let there : x ≡ d = ground arith in sym there ∙ here
find_same (x ∷ ds) a b (suc i) dev d h k =
    let inner : find ds a ≡ some (i, dev) = ground arith in
    let later : find ds b ≡ some (i, d) = ground arith in find_same ds a b i dev d inner later
