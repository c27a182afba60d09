-- ===== src/Bus/Loaded.antt =====
-- The number that a load gives, apart from how the code puts it together.
use criscv.Base.{ℕ, zero, suc, ◌+◌, ◌-◌, ◌%◌, ◌<◌, ◌≤◌, ◌≡◌, refl, ap, ◌∙◌, arith, ◌==◌, ◌||◌, ltb}
use criscv.Base.{
  Bool-cases, inl, inr, if◌then◌else◌, Option, none, some, [], slice, Bool, true, false,
}
use criscv.Base.{◌⊎◌}
use criscv.Mmio.{AccessWidth, byte, halfword, word, MmioDevice, Driver, ram, csr_mmio}
use criscv.Mmu.{mperm_read}
use criscv.Mmu.Loops.{all_allow}
use criscv.Mmu.Transfer.{read_result}
use criscv.Memory.{le_value, read_value, mult}
use criscv.Bus.{Bus}
use criscv.Bus.Total.{load_hit, load_result}
use criscv.Spec.Access.{LoadOp, lb, lh, lw, lbu, lhu, load_width}
use criscv.Spec.Machine.{number_at, load_size}

pub number_at-slice :
    (memory f : ℕ → ℕ) (n a i : ℕ)
    → ((k : ℕ) → k < n → memory (a + k) ≡ f (i + k))
    → number_at memory a n ≡ le_value (slice f i n)
unfolding number_at le_value
number_at-slice memory f zero a i h = refl
number_at-slice memory f (suc n) a i h =
    let here : memory a ≡ f i = ap memory (omega arith) ∙ h 0 (omega arith) ∙ ap f (omega arith) in
    rw (
      here,
      number_at-slice memory f n (a + 1) (i + 1)
          (λ k hk. ap memory (omega arith) ∙ h (suc k) (omega arith) ∙ ap f (omega arith)),
    )

-- The number of the `n` bytes of the memory, low byte first and with nothing but zeros above them. Where
-- the memory refuses, the byte is whatever the local held, and a wider number is 0. The CSR device
-- answers 0, and the bus itself 0x0badc0de where there is no device.
unfoldable pub number_hit : Driver → Bus → ℕ → ℕ → ℕ
number_hit csr_mmio bus a n = 0
number_hit ram bus a n =
    if ltb a bus.mmu.base || ltb (bus.mmu.base + bus.mmu.size) (a + n)
    then (if n == 1 then bus.old_byte % 256 else 0)
    else (if all_allow n (a - bus.mmu.base) mperm_read bus.mmu
        then number_at (λ x. bus.mmu.bytes (x - bus.mmu.base)) a n
        else (if n == 1 then bus.old_byte % 256 else 0))

unfoldable pub number_loaded : Option (ℕ × MmioDevice) → Bus → ℕ → ℕ → ℕ
number_loaded none bus a n = 0x0badc0de
number_loaded (some (i, dev)) bus a n = number_hit dev.driver bus a n

module _ (bus : Bus) (a n : ℕ) where
  abbrev outside : Bool
  outside = ltb a bus.mmu.base || ltb (bus.mmu.base + bus.mmu.size) (a + n)

  abbrev opened : Bool
  opened = all_allow n (a - bus.mmu.base) mperm_read bus.mmu

  -- What was read, and its number.
  refused :
      (outside ≡ true) ⊎ ((outside ≡ false) × (opened ≡ false))
      → ((read_result bus.mmu a n).1 ≡ [])
        × (number_hit ram bus a n ≡ (if n == 1 then bus.old_byte % 256 else 0))
  unfolding read_result number_hit
  refused (inl e) = (rw e, rw e)
  refused (inr (e, f)) = (rw (e, f), rw (e, f))

  granted_range :
      outside ≡ false
      → opened ≡ true
      → ((read_result bus.mmu a n).1 ≡ slice bus.mmu.bytes (a - bus.mmu.base) n)
        × (number_hit ram bus a n ≡ le_value (slice bus.mmu.bytes (a - bus.mmu.base) n))
  unfolding read_result number_hit
  granted_range e f =
      let low : bus.mmu.base ≤ a = ground arith in
      (
        rw (e, f),
        rw (e, f)
            (number_at-slice (λ x. bus.mmu.bytes (x - bus.mmu.base)) bus.mmu.bytes n a
              (a - bus.mmu.base) (λ k h. ap bus.mmu.bytes (omega arith))),
      )

  answers :
      ((read_result bus.mmu a n).1 ≡ [])
        × (number_hit ram bus a n ≡ (if n == 1 then bus.old_byte % 256 else 0))
      ⊎ (((read_result bus.mmu a n).1 ≡ slice bus.mmu.bytes (a - bus.mmu.base) n)
          × (number_hit ram bus a n ≡ le_value (slice bus.mmu.bytes (a - bus.mmu.base) n)))
  answers = elim (Bool-cases outside) [
    | inl e ↦ inl (refused (inl e))
    | inr e ↦ elim (Bool-cases opened) [
      | inl f ↦ inr (granted_range e f)
      | inr f ↦ inl (refused (inr (e, f)))
    ]
  ]

ram_number :
    (bus : Bus) (a : ℕ) (aw : AccessWidth)
    → read_value aw (bus.old_byte % 256) (read_result bus.mmu a (mult aw)).1
      ≡ number_hit ram bus a (mult aw)
unfolding read_value le_value
ram_number bus a byte = elim (answers bus a 1) [
  | inl (e, f) ↦ rw (e, f)
  | inr (e, f) ↦ rw (e, f) (omega arith)
]
ram_number bus a halfword = elim (answers bus a 2) [
  | inl (e, f) ↦ rw (e, f)
  | inr (e, f) ↦ rw (e, f)
]
ram_number bus a word = elim (answers bus a 4) [ inl (e, f) ↦ rw (e, f) | inr (e, f) ↦ rw (e, f) ]

mult-load_width : (op : LoadOp) → mult (load_width op) ≡ load_size op
unfolding load_width load_size
mult-load_width lb = refl
mult-load_width lh = refl
mult-load_width lw = refl
mult-load_width lbu = refl
mult-load_width lhu = refl

hit_number :
    (d : Driver) (bus : Bus) (i : ℕ) (dev : MmioDevice) (a : ℕ) (aw : AccessWidth)
    → (load_hit d bus i dev a aw).0 ≡ number_hit d bus a (mult aw)
unfolding load_hit
hit_number ram bus i dev a aw = ram_number bus a aw
hit_number csr_mmio bus i dev a aw = unfold number_hit in refl

pub load_result-number_loaded :
    (o : Option (ℕ × MmioDevice)) (bus : Bus) (a : ℕ) (op : LoadOp)
    → (load_result o bus a (load_width op)).0 ≡ number_loaded o bus a (load_size op)
unfolding load_result number_loaded
load_result-number_loaded none bus a op = refl
load_result-number_loaded (some (i, dev)) bus a op =
    hit_number dev.driver bus i dev a (load_width op)
    ∙ ap (number_hit dev.driver bus a) (mult-load_width op)
