-- ===== src/Base/Outcome.antt =====
-- How a C call of the program ends: with a value, or stopped.
use mathlib.Core.Bool.{Bool, true, false}

-- A failed `assert`, a call through a null function pointer, an access outside an object (which C
-- leaves undefined), and a lock of a mutex that its own thread holds.
pub data Stop : Type 0 where
  assert_failed null_call out_of_bounds deadlock : Stop

pub data Result {ℓ} (A : Type ℓ) : Type ℓ where
  stop : Stop → Result A
  ok : A → Result A

infixl 5 ◌>>◌ ◌>>=◌
-- `assert`, and the check that an access is inside its object.
abbrev pub require : Bool → Stop → Result (Unit {0})
require false why = stop why
require true why = ok tt

abbrev pub ◌>>=◌ {κ ℓ} : {X : Type κ} {Y : Type ℓ} (m : Result X) (next : X → Result Y) → Result Y
stop why >>= next = stop why
ok x >>= next = next x

abbrev pub ◌>>◌ {κ} : {Y : Type κ} (test : Result (Unit {0})) (rest : Result Y) → Result Y
test >> rest = test >>= λ _. rest
