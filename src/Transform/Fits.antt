-- ===== src/Transform/Fits.antt =====
-- The kinds of transforms of execution-engine/engine-shared/src/transform.rs, and which stored
-- values they can be applied to.
use casper_labs.Base.{ℕ, ◌^◌, ◌≤◌, ◌<◌, ◌≡◌, Bool, true, false, ok, ⊤, arith, leb}
use casper_labs.Values.{
  NumType, bits, NamedKeys, number, broken, other, StoredValue, cl_value, account, contract,
}
use casper_labs.Transform.{
  Transform, Error, identity, write, add_int32, add_uint64, add_uint128, add_uint256, add_uint512,
  add_keys, failure, apply, wrapping_addition,
}
use casper_labs.Transform.Compose.{Adds, int32, uint64, uint128, uint256, uint512}

module _ {V : Type 0} where
  -- What is added is a number of its type.
  abbrev pub InRange : Transform V → Type 0
  InRange (add_int32 n) = n < 2 ^ 32
  InRange (add_uint64 n) = n < 2 ^ 64
  InRange (add_uint128 n) = n < 2 ^ 128
  InRange (add_uint256 n) = n < 2 ^ 256
  InRange (add_uint512 n) = n < 2 ^ 512
  InRange _ = ⊤

  -- The width of a stored number in bits; 0 for any other value.
  abbrev pub stored_bits : StoredValue V → ℕ
  stored_bits (cl_value (number t x)) = bits t
  stored_bits _ = 0

  -- The transform does not fail by itself, and does not add a number to a wider one.
  abbrev pub fits : Transform V → StoredValue V → Bool
  fits (add_int32 n) s = leb (stored_bits s) 32
  fits (add_uint64 n) s = leb (stored_bits s) 64
  fits (add_uint128 n) s = leb (stored_bits s) 128
  fits (add_uint256 n) s = leb (stored_bits s) 256
  fits (add_uint512 n) s = leb (stored_bits s) 512
  fits (failure e) s = false
  fits _ s = true

  pub data Kind : Transform V → Type 0 where
    is_identity : Kind identity
    is_write : (v : StoredValue V) → Kind (write v)
    is_keys : (ks : NamedKeys) → Kind (add_keys ks)
    is_failure : (e : Error) → Kind (failure e)
    is_add : {a : Transform V} {w p : ℕ} → Adds a w p → Kind a

  pub kind : (a : Transform V) → InRange a → Kind a
  kind identity r = is_identity
  kind (write v) r = is_write v
  kind (add_int32 n) r = is_add (int32 n r)
  kind (add_uint64 n) r = is_add (uint64 n r)
  kind (add_uint128 n) r = is_add (uint128 n r)
  kind (add_uint256 n) r = is_add (uint256 n r)
  kind (add_uint512 n) r = is_add (uint512 n r)
  kind (add_keys ks) r = is_keys ks
  kind (failure e) r = is_failure e

  pub fits-Adds :
      {c : Transform V} {w p : ℕ}
      → Adds c w p
      → (s : StoredValue V) → fits c s ≡ true
      → stored_bits s ≤ w
  fits-Adds (int32 n r) s h = ground arith
  fits-Adds (uint64 n r) s h = ground arith
  fits-Adds (uint128 n r) s h = ground arith
  fits-Adds (uint256 n r) s h = ground arith
  fits-Adds (uint512 n r) s h = ground arith

  -- A number is added only to a number.
  pub data IsNumber : StoredValue V → Type 0 where
    is_number : (t : NumType) (x : ℕ) → IsNumber (cl_value (number t x))

  wrapping_addition-IsNumber :
      (s s' : StoredValue V) (f : NumType → ℕ) → wrapping_addition s f ≡ ok s' → IsNumber s
  unfolding wrapping_addition
  wrapping_addition-IsNumber (cl_value (number t x)) s' f e = is_number t x
  wrapping_addition-IsNumber (cl_value (broken t x)) s' f e = ground arith
  wrapping_addition-IsNumber (cl_value (other v)) s' f e = ground arith
  wrapping_addition-IsNumber (account a) s' f e = ground arith
  wrapping_addition-IsNumber (contract c) s' f e = ground arith

  pub apply-IsNumber :
      {a : Transform V} {w p : ℕ}
      → Adds a w p
      → (s s' : StoredValue V) → apply a s ≡ ok s'
      → IsNumber s
  unfolding apply
  apply-IsNumber (int32 n r) s s' e = wrapping_addition-IsNumber s s' _ e
  apply-IsNumber (uint64 n r) s s' e = wrapping_addition-IsNumber s s' _ e
  apply-IsNumber (uint128 n r) s s' e = wrapping_addition-IsNumber s s' _ e
  apply-IsNumber (uint256 n r) s s' e = wrapping_addition-IsNumber s s' _ e
  apply-IsNumber (uint512 n r) s s' e = wrapping_addition-IsNumber s s' _ e
