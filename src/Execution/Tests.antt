-- ===== src/Execution/Tests.antt =====
-- Results of deploys at concrete inputs.
use casper_labs.Base.{ℕ, ◌≡◌, Bool, false, Option, some, Result, ok, ⊤, [], ◌∷◌, ◌==◌, arith}
use casper_labs.Types.{Key, hash}
use casper_labs.Values.{u512, number, StoredValue, cl_value}
use casper_labs.Transform.{write, add_uint512, identity}
use casper_labs.TrackingCopy.{Op}
use casper_labs.KeyMap.{find}
use casper_labs.Execution.{ExecutionResult, success, no_effect, effect, reduce_identity_writes}

-- Equality, told only for numbers of 512 bits.
abbrev same : StoredValue ℕ → StoredValue ℕ → Bool
same (cl_value (number u512 a)) (cl_value (number u512 b)) = a == b
same _ _ = false

abbrev ten : StoredValue ℕ
ten = cl_value (number u512 10)

abbrev all_ten : Key → Result ⊤ (Option (StoredValue ℕ))
all_ten k = ok (some ten)

-- The payment writes what is there, and the session adds to it.
abbrev payment_result : ExecutionResult ⊤ ℕ
payment_result =
    success
      (record {
        ops = (hash 1, Op.write) ∷ [];
        transforms = (hash 1, write ten) ∷ (hash 2, write ten) ∷ [];
      })
      3

abbrev session_result : ExecutionResult ⊤ ℕ
session_result =
    success (record { ops = (hash 1, Op.add) ∷ []; transforms = (hash 1, add_uint512 5) ∷ [] }) 4

abbrev finalize_result : ExecutionResult ⊤ ℕ
finalize_result = success no_effect 0

reduced :
    find (hash 2) (reduce_identity_writes same all_ten (effect payment_result)).transforms
    ≡ some identity
unfolding reduce_identity_writes find
reduced = ground arith
