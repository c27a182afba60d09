-- ===== src/Base/Bits.antt =====
-- Laws of `&`, `|` and `^` at variables, by the recursion on the lowest binary digit.
use Prim.Native.Nat.{ℕ, zero, suc, ◌+◌, ◌-◌, ◌*◌, ◌/◌, ◌%◌, ◌^◌, ◌≤◌, ◌<◌, min, max}
use Prim.Native.Nat.{bit_and, bit_or, bit_xor, differ, digits, bitwise}
use Prim.Native.Nat.{bit_and-bitwise, bit_or-bitwise, bit_xor-bitwise}
use mathlib.Core.Path.{◌≡◌, refl, ap, sym, ◌∙◌}
use mathlib.Core.WellFounded
use native.Mathlib.Nat.{pow-suc, one-le-pow}
use native.Mathlib.Omega.{arith}
use criscv.Base.Order.{lt_wf}
use criscv.Base.Tests.{ltb, if◌then◌else◌}

-- The digits do not depend on the fuel, once that covers the first number.
module _ (rest : ℕ → ℕ) (join : ℕ → ℕ → ℕ) where
  same_digits : (p q a b : ℕ) → a ≤ p → a ≤ q → digits rest join p a b ≡ digits rest join q a b
  same_digits zero zero a b hp hq = refl
  same_digits zero (suc q) zero b hp hq = refl
  same_digits (suc p) zero zero b hp hq = refl
  same_digits (suc p) (suc q) zero b hp hq = refl
  same_digits zero q (suc a) b hp hq = absurd (omega arith)
  same_digits (suc p) zero (suc a) b hp hq = absurd (omega arith)
  same_digits (suc p) (suc q) (suc a) b hp hq =
      rw (same_digits p q (suc a / 2) (b / 2) (omega arith) (omega arith))

  lowest_digit :
      (a b : ℕ)
      → bitwise rest join (suc a) b
        ≡ bitwise rest join (suc a / 2) (b / 2) * 2 + join (suc a % 2) (b % 2)
  lowest_digit a b =
      omega (arith, same_digits a (suc a / 2) (suc a / 2) (b / 2) (omega arith) (omega arith))

pub and_step : (a b : ℕ) → bit_and a b ≡ bit_and (a / 2) (b / 2) * 2 + min (a % 2) (b % 2)
and_step zero b = simp bit_and-bitwise (omega arith)
and_step (suc a) b = simp bit_and-bitwise (lowest_digit (λ y. 0) min a b)

pub or_step : (a b : ℕ) → bit_or a b ≡ bit_or (a / 2) (b / 2) * 2 + max (a % 2) (b % 2)
or_step zero b = simp bit_or-bitwise (omega arith)
or_step (suc a) b = simp bit_or-bitwise (lowest_digit (λ y. y) max a b)

pub xor_step : (a b : ℕ) → bit_xor a b ≡ bit_xor (a / 2) (b / 2) * 2 + differ (a % 2) (b % 2)
xor_step zero b = simp bit_xor-bitwise (omega arith)
xor_step (suc a) b = simp bit_xor-bitwise (lowest_digit (λ y. y) differ a b)

-- A value with no digits left.
or_zero : (a : ℕ) → bit_or a 0 ≡ a
or_zero a = WellFounded.induction lt_wf a go
  where
    go : (n : ℕ) → ((m : ℕ) → m < n → bit_or m 0 ≡ m) → bit_or n 0 ≡ n
    go zero less = refl
    go (suc n) less = omega (arith, or_step (suc n) 0, less (suc n / 2) (omega arith))

and_zero : (a : ℕ) → bit_and a 0 ≡ 0
and_zero a = WellFounded.induction lt_wf a go
  where
    go : (n : ℕ) → ((m : ℕ) → m < n → bit_and m 0 ≡ 0) → bit_and n 0 ≡ 0
    go zero less = refl
    go (suc n) less = omega (arith, and_step (suc n) 0, less (suc n / 2) (omega arith))

double_field : (q k : ℕ) → q * 2 ^ suc k ≡ q * 2 ^ k * 2
double_field q k = omega (arith, ap (λ (t : ℕ). q * t) (pow-suc 2 k))

-- `(q << k) | r` is a sum where `r` has at most `k` digits.
pub or_fields : (k q r : ℕ) → r < 2 ^ k → bit_or (q * 2 ^ k) r ≡ q * 2 ^ k + r
or_fields zero q r h = ground (arith, or_zero q)
or_fields (suc k) q r h =
    let below : r / 2 < 2 ^ k = omega (arith, pow-suc 2 k) in
    let shifted : q * 2 ^ suc k / 2 ≡ q * 2 ^ k = omega (arith, double_field q k) in
    let even : q * 2 ^ suc k % 2 ≡ 0 = omega (arith, double_field q k) in
    let step = or_step (q * 2 ^ suc k) r in
    let rest = or_fields k q (r / 2) below in
    ground (arith, step, rest, shifted, even, double_field q k)

and_low : (k q r : ℕ) → r < 2 ^ k → bit_and (q * 2 ^ k + r) (2 ^ k - 1) ≡ r
and_low zero q r h = ground (arith, and_zero (q * 1 + r))
and_low (suc k) q r h =
    let below : r / 2 < 2 ^ k = omega (arith, pow-suc 2 k) in
    let step = and_step (q * 2 ^ suc k + r) (2 ^ suc k - 1) in
    let rest = and_low k q (r / 2) below in
    ground (arith, step, rest, double_field q k, pow-suc 2 k)

-- `a & ((1 << k) - 1)` keeps the low `k` digits.
pub and_mask : (k a : ℕ) → bit_and a (2 ^ k - 1) ≡ a % 2 ^ k
and_mask k a = ground (arith, one-le-pow k 2, and_low k (a / 2 ^ k) (a % 2 ^ k))

pub or_lt : (k a b : ℕ) → a < 2 ^ k → b < 2 ^ k → bit_or a b < 2 ^ k
or_lt zero a b ha hb = ground (arith, or_zero 0)
or_lt (suc k) a b ha hb = omega (
  arith,
  or_step a b,
  pow-suc 2 k,
  or_lt k (a / 2) (b / 2) (omega (arith, pow-suc 2 k)) (omega (arith, pow-suc 2 k)),
)

pub and_lt : (k a b : ℕ) → a < 2 ^ k → bit_and a b < 2 ^ k
and_lt zero zero b ha = omega (arith, and_step zero b, bit_and-bitwise 0 b)
and_lt zero (suc a) b ha = absurd (omega arith)
and_lt (suc k) a b ha =
    omega (arith, and_step a b, pow-suc 2 k, and_lt k (a / 2) (b / 2) (omega (arith, pow-suc 2 k)))

differ_bit : (x y : ℕ) → x < 2 → y < 2 → differ x y < 2
differ_bit zero y hx hy = hy
differ_bit (suc x) zero hx hy = hx
differ_bit (suc zero) (suc y) hx hy = omega arith
differ_bit (suc (suc x)) (suc y) hx hy = absurd (omega arith)

pub xor_lt : (k a b : ℕ) → a < 2 ^ k → b < 2 ^ k → bit_xor a b < 2 ^ k
xor_lt zero zero zero ha hb = omega arith
xor_lt zero (suc a) b ha hb = absurd (omega arith)
xor_lt zero a (suc b) ha hb = absurd (omega arith)
xor_lt (suc k) a b ha hb = omega (
  arith,
  xor_step a b,
  pow-suc 2 k,
  differ_bit (a % 2) (b % 2) (omega arith) (omega arith),
  xor_lt k (a / 2) (b / 2) (omega (arith, pow-suc 2 k)) (omega (arith, pow-suc 2 k)),
)

differ_zero : (x : ℕ) → differ x 0 ≡ x
differ_zero zero = refl
differ_zero (suc x) = refl

-- `a ^ (1 << k)` on a value of at most `k + 1` digits turns the top one over.
pub xor_top :
    (k a : ℕ) → a < 2 ^ suc k → bit_xor a (2 ^ k) ≡ (if ltb a (2 ^ k) then a + 2 ^ k else a - 2 ^ k)
xor_top zero zero h = refl
xor_top zero (suc zero) h = refl
xor_top zero (suc (suc a)) h = absurd (omega arith)
xor_top (suc k) a h =
    let below : a / 2 < 2 ^ suc k = omega (arith, pow-suc 2 (suc k)) in
    let half : 2 ^ suc k / 2 ≡ 2 ^ k = omega (arith, pow-suc 2 k) in
    let even : 2 ^ suc k % 2 ≡ 0 = omega (arith, pow-suc 2 k) in
    let step = xor_step a (2 ^ suc k) in
    let rest = xor_top k (a / 2) below in
    ground (arith, step, rest, half, even, differ_zero (a % 2), pow-suc 2 k)

pub or_comm : (a b : ℕ) → bit_or a b ≡ bit_or b a
or_comm a b = WellFounded.induction lt_wf {C = λ n. (m : ℕ) → bit_or n m ≡ bit_or m n} a go b
  where
    go :
        (n : ℕ)
        → ((l : ℕ) → l < n → (m : ℕ) → bit_or l m ≡ bit_or m l)
        → (m : ℕ) → bit_or n m ≡ bit_or m n
    go zero less m = bit_or-bitwise 0 m ∙ sym (or_zero m)
    go (suc n) less m =
        omega (arith, or_step (suc n) m, or_step m (suc n), less (suc n / 2) (omega arith) (m / 2))

-- A field of at most `w` digits put in at place `k`, where `a` has no digits.
pub or_insert :
    (w k q r b : ℕ)
    → r < 2 ^ k
    → b < 2 ^ w
    → bit_or (q * 2 ^ w * 2 ^ k + r) (b * 2 ^ k) ≡ (q * 2 ^ w + b) * 2 ^ k + r
or_insert w zero q r b hr hb = ground (arith, or_fields w q b hb)
or_insert w (suc k) q r b hr hb =
    let below : r / 2 < 2 ^ k = omega (arith, pow-suc 2 k) in
    let high = double_field (q * 2 ^ w) k in
    let field = double_field b k in
    let both = double_field (q * 2 ^ w + b) k in
    let step = or_step (q * 2 ^ w * 2 ^ suc k + r) (b * 2 ^ suc k) in
    let rest = or_insert w k q (r / 2) b below hb in ground (arith, step, rest, high, field, both)

-- One binary digit.
pub and_1 : (a : ℕ) → bit_and a 1 ≡ a % 2
and_1 a = and_mask 1 a

pub and_2 : (a : ℕ) → bit_and a 2 ≡ a / 2 % 2 * 2
and_2 a = omega (arith, and_step a 2, and_1 (a / 2))

pub and_4 : (a : ℕ) → bit_and a 4 ≡ a / 4 % 2 * 4
and_4 a = omega (arith, and_step a 4, and_2 (a / 2))
