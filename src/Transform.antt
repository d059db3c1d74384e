-- ===== src/Transform.antt =====
-- Transforms of stored values: execution-engine/engine-shared/src/transform.rs. The texts inside of
-- a type mismatch are left out.
pub mod Modular
pub mod Compose
pub mod Fits
pub mod Sequence
pub mod Narrow
mod Tests
use casper_labs.Base.{ℕ, Option, none, some, Result, ok, err}
use casper_labs.Base
use casper_labs.Values.{
  NumType, i32, u64, u128, u256, u512, wrapping_add, i32_as, uint_as, BytesreprError, NamedKeys,
  append, ClValue, number, broken, other, StoredValue, cl_value, account, contract, account_append,
  contract_append,
}

pub data Error : Type 0 where
  serialization : BytesreprError → Error
  type_mismatch : Error

pub data Transform (V : Type 0) : Type 0 where
  identity : Transform V
  write : StoredValue V → Transform V
  add_int32 add_uint64 add_uint128 add_uint256 add_uint512 : ℕ → Transform V
  add_keys : NamedKeys → Transform V
  failure : Error → Transform V

module _ {V : Type 0} where
  -- The addend stands as what `as_` makes of it in each type.
  unfoldable pub do_wrapping_addition : ClValue V → (NumType → ℕ) → Result Error (StoredValue V)
  unfolding wrapping_add
  do_wrapping_addition (number t x) to_add = ok (cl_value (number t (wrapping_add t x (to_add t))))
  do_wrapping_addition (broken t e) to_add = err (serialization e)
  do_wrapping_addition (other v) to_add = err type_mismatch

  unfoldable pub wrapping_addition : StoredValue V → (NumType → ℕ) → Result Error (StoredValue V)
  unfolding do_wrapping_addition
  wrapping_addition (cl_value v) to_add = do_wrapping_addition v to_add
  wrapping_addition (account a) to_add = err type_mismatch
  wrapping_addition (contract c) to_add = err type_mismatch

  unfoldable pub append_keys : NamedKeys → StoredValue V → Result Error (StoredValue V)
  append_keys keys (contract c) = ok (contract (contract_append keys c))
  append_keys keys (account a) = ok (account (account_append keys a))
  append_keys keys (cl_value v) = err type_mismatch

  unfoldable pub apply : Transform V → StoredValue V → Result Error (StoredValue V)
  unfolding wrapping_addition append_keys i32_as uint_as
  apply identity s = ok s
  apply (write new_value) s = ok new_value
  apply (add_int32 n) s = wrapping_addition s (i32_as n)
  apply (add_uint64 n) s = wrapping_addition s (uint_as n)
  apply (add_uint128 n) s = wrapping_addition s (uint_as n)
  apply (add_uint256 n) s = wrapping_addition s (uint_as n)
  apply (add_uint512 n) s = wrapping_addition s (uint_as n)
  apply (add_keys keys) s = append_keys keys s
  apply (failure e) s = err e

  -- `T::try_from(b)` for the types of `wrapped_transform_addition`.
  unfoldable pub addend_of : NumType → Transform V → Option ℕ
  addend_of u128 (add_uint128 n) = some n
  addend_of u256 (add_uint256 n) = some n
  addend_of u512 (add_uint512 n) = some n
  addend_of _ _ = none

  unfoldable pub wrapped_transform_addition :
      NumType → (ℕ → Transform V) → ℕ → Transform V → Transform V
  unfolding wrapping_add i32_as addend_of
  wrapped_transform_addition t into i (add_int32 j) = into (wrapping_add t i (i32_as j t))
  wrapped_transform_addition t into i (add_uint64 j) = into (wrapping_add t i j)
  wrapped_transform_addition t into i b = elim (addend_of t b) [
    | some j ↦ into (wrapping_add t i j)
    | none ↦ failure type_mismatch
  ]

  unfoldable pub combine_int32 : ℕ → Transform V → Transform V
  unfolding wrapping_add i32_as
  combine_int32 i (add_int32 j) = add_int32 (wrapping_add i32 i j)
  combine_int32 i (add_uint64 j) = add_uint64 (wrapping_add u64 j (i32_as i u64))
  combine_int32 i (add_uint128 j) = add_uint128 (wrapping_add u128 j (i32_as i u128))
  combine_int32 i (add_uint256 j) = add_uint256 (wrapping_add u256 j (i32_as i u256))
  combine_int32 i (add_uint512 j) = add_uint512 (wrapping_add u512 j (i32_as i u512))
  combine_int32 i _ = failure type_mismatch

  unfoldable pub combine_uint64 : ℕ → Transform V → Transform V
  unfolding wrapping_add uint_as
  combine_uint64 i (add_int32 j) = add_int32 (wrapping_add i32 j (uint_as i i32))
  combine_uint64 i (add_uint64 j) = add_uint64 (wrapping_add u64 i j)
  combine_uint64 i (add_uint128 j) = add_uint128 (wrapping_add u128 j i)
  combine_uint64 i (add_uint256 j) = add_uint256 (wrapping_add u256 j i)
  combine_uint64 i (add_uint512 j) = add_uint512 (wrapping_add u512 j i)
  combine_uint64 i _ = failure type_mismatch

  unfoldable pub combine_keys : NamedKeys → Transform V → Transform V
  combine_keys ks (add_keys more) = add_keys (append ks more)
  combine_keys ks _ = failure type_mismatch

  -- The second transform changes the value being written.
  abbrev pub written : Result Error (StoredValue V) → Transform V
  written (ok new_value) = write new_value
  written (err e) = failure e

  -- `impl Add for Transform`
  unfoldable pub combine : Transform V → Transform V → Transform V
  unfolding apply wrapped_transform_addition combine_int32 combine_uint64 combine_keys
  combine a identity = a
  combine identity b = b
  combine (failure e) b = failure e
  combine a (failure e) = failure e
  combine a (write v) = write v
  combine (write v) b = written (apply b v)
  combine (add_int32 i) b = combine_int32 i b
  combine (add_uint64 i) b = combine_uint64 i b
  combine (add_uint128 i) b = wrapped_transform_addition u128 add_uint128 i b
  combine (add_uint256 i) b = wrapped_transform_addition u256 add_uint256 i b
  combine (add_uint512 i) b = wrapped_transform_addition u512 add_uint512 i b
  combine (add_keys ks) b = combine_keys ks b
