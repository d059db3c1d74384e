-- ===== src/Transform/Tests.antt =====
-- Transforms at concrete values.
use casper_labs.Base.{ℕ, ◌^◌, ◌-◌, ◌≡◌, ◌≢◌, refl, ok, ◌>>=◌, arith}
use casper_labs.Values.{u512, number, StoredValue, cl_value}
use casper_labs.Transform.{add_int32, add_uint64, add_uint512, apply, combine}
use casper_labs.Transform.Sequence.{apply-combine}
use casper_labs.Transform.Narrow.{combine_drops_carry}

-- A balance of ten motes.
abbrev ten : StoredValue ℕ
ten = cl_value (number u512 10)

-- An `i32` of -3.
abbrev minus_three : ℕ
minus_three = 2 ^ 32 - 3

apply-combine_example :
    apply (combine (add_int32 minus_three) (add_uint512 5)) ten ≡ ok (cl_value (number u512 12))
unfolding apply combine
apply-combine_example =
    apply-combine (add_int32 minus_three) (add_uint512 5) ten (cl_value (number u512 12))
      (omega arith) (omega arith) refl refl

combine_drops_carry_example :
    apply (combine (add_uint64 (2 ^ 64 - 1)) (add_uint64 1)) ten
    ≢ (apply (add_uint64 (2 ^ 64 - 1)) ten >>= apply (add_uint64 1))
combine_drops_carry_example =
    combine_drops_carry (2 ^ 64 - 1) 1 10 (omega arith) (omega arith) (omega arith)
