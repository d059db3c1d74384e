-- ===== src/TrackingCopy.antt =====
-- The tracking copy of execution-engine/engine-core/src/tracking_copy/mod.rs: a state under
-- execution, over the reader of a global state, with the effects on it. The texts inside of a type
-- mismatch are left out, and so are correlation ids, which serve for logging.
mod Ops
mod Cache
pub mod Reads
pub mod Overlay
pub mod Effects
pub mod Recorded
pub mod Session
pub mod Opened
pub mod Linked
pub mod Writes
unfoldable pub use Ops.*
unfoldable pub use Cache.*
use Prim.Native.String.{String}
use text.Mathlib.Text.{◌==◌ as str_eq}
use casper_labs.Base.{ℕ, ◌*◌, Option, none, some, [], Result, ok, err, if◌then◌else◌}
use casper_labs.Types.{Key, normalize}
use casper_labs.KeyMap.{KeyMap, insert_add}
use casper_labs.Values.{
  NumType, i32, u64, u128, u256, u512, BytesreprError, NamedKeys, ClValue, number, broken, other,
  StoredValue, cl_value, account, contract,
}
use casper_labs.Transform.{
  Transform, Error, identity, write, add_int32, add_uint64, add_uint128, add_uint256, add_uint512,
  add_keys, apply, combine,
}

pub data AddResult : Type 0 where
  success : AddResult
  key_not_found : Key → AddResult
  type_mismatch : AddResult
  serialization : BytesreprError → AddResult

-- `L` is the type of the map of reads, `V` that of the values of no integral type, and `E` that of
-- the reader's errors.
pub record TrackingCopy (L V E : Type 0) : Type 0 where
  pub reader : Key → Result E (Option (StoredValue V))
  pub cache : TrackingCopyCache L (StoredValue V)
  pub ops : KeyMap Op
  pub fns : KeyMap (Transform V)

-- `TrackingCopy::new`
abbrev pub new :
    {L V E : Type 0}
    → LinkedHashMap L (StoredValue V)
    → (Key → Result E (Option (StoredValue V)))
    → TrackingCopy L V E
new map reader = record {
  reader = reader;
  cache = record {
    max_cache_size = 1024 * 16;
    current_cache_size = 0;
    reads_cached = map.empty;
    muts_cached = [];
  };
  ops = [];
  fns = [];
}

-- A map of one name.
abbrev pub one_key : String × Key → NamedKeys
one_key (name, key) = λ n. if str_eq n name then some key else none

-- The addition of a number.
unfoldable pub number_transform : {V : Type 0} → NumType → ℕ → Result AddResult (Transform V)
number_transform i32 n = ok (add_int32 n)
number_transform u64 n = ok (add_uint64 n)
number_transform u128 n = ok (add_uint128 n)
number_transform u256 n = ok (add_uint256 n)
number_transform u512 n = ok (add_uint512 n)
number_transform _ n = err type_mismatch

-- Bytes under an integral type that decode to no number of it.
unfoldable pub broken_transform :
    {V : Type 0} → NumType → BytesreprError → Result AddResult (Transform V)
broken_transform i32 e = err (serialization e)
broken_transform u64 e = err (serialization e)
broken_transform u128 e = err (serialization e)
broken_transform u256 e = err (serialization e)
broken_transform u512 e = err (serialization e)
broken_transform _ e = err type_mismatch

-- The decoding of a value under `named_key_type()`, or `none` for any other type.
abbrev pub key_transform :
    {V : Type 0} → Option (Result BytesreprError (String × Key)) → Result AddResult (Transform V)
key_transform none = err type_mismatch
key_transform (some (ok name_and_key)) = ok (add_keys (one_key name_and_key))
key_transform (some (err e)) = err (serialization e)

abbrev pub add_result : Error → AddResult
add_result (Error.serialization e) = serialization e
add_result Error.type_mismatch = type_mismatch

module _ {V : Type 0} where
  unfoldable pub transform_of :
      (V → Option (Result BytesreprError (String × Key)))
      → StoredValue V
      → Result AddResult (Transform V)
  unfolding number_transform broken_transform
  transform_of named_key (cl_value (number t n)) = number_transform t n
  transform_of named_key (cl_value (broken t e)) = broken_transform t e
  transform_of named_key (cl_value (other v)) = key_transform (named_key v)
  transform_of named_key (account a) = err type_mismatch
  transform_of named_key (contract c) = err type_mismatch

module _ {L V E : Type 0} (map : LinkedHashMap L (StoredValue V))
    (meter : Key → StoredValue V → ℕ) where
  -- The read of the underlying state, which fills the cache.
  unfoldable pub get_from_reader :
      Key → TrackingCopy L V E → TrackingCopy L V E × Result E (Option (StoredValue V))
  unfolding insert_read
  get_from_reader key tc = elim (tc.reader key) [
    | ok (some value) ↦
        (record tc { cache = insert_read map meter key value tc.cache }, ok (some value))
    | ok none ↦ (tc, ok none)
    | err e ↦ (tc, err e)
  ]

  -- What follows the lookup in the cache.
  unfoldable pub get_after :
      Key
      → TrackingCopy L V E
      → TrackingCopyCache L (StoredValue V) × Option (StoredValue V)
      → TrackingCopy L V E × Result E (Option (StoredValue V))
  unfolding get_from_reader
  get_after key tc (c, some value) = (record tc { cache = c }, ok (some value))
  get_after key tc (c, none) = get_from_reader key (record tc { cache = c })

  unfoldable pub get :
      Key → TrackingCopy L V E → TrackingCopy L V E × Result E (Option (StoredValue V))
  unfolding cache_get get_after
  get key tc = get_after key tc (cache_get map meter key tc.cache)

  -- `self.ops.insert_add(…); self.fns.insert_add(…);`
  unfoldable pub record_effect : Key → Op → Transform V → TrackingCopy L V E → TrackingCopy L V E
  unfolding insert_add add_op combine
  record_effect key op transform tc = record tc {
    ops = insert_add add_op no_op key op tc.ops;
    fns = insert_add combine identity key transform tc.fns;
  }

  -- What follows `get` in `read`.
  unfoldable pub read_after :
      Key
      → TrackingCopy L V E × Result E (Option (StoredValue V))
      → TrackingCopy L V E × Result E (Option (StoredValue V))
  unfolding record_effect
  read_after key (tc, ok (some value)) = (record_effect key Op.read identity tc, ok (some value))
  read_after key (tc, ok none) = (tc, ok none)
  read_after key (tc, err e) = (tc, err e)

  unfoldable pub read :
      Key → TrackingCopy L V E → TrackingCopy L V E × Result E (Option (StoredValue V))
  unfolding get read_after normalize
  read key tc = read_after (normalize key) (get (normalize key) tc)

  unfoldable pub write_value : Key → StoredValue V → TrackingCopy L V E → TrackingCopy L V E
  unfolding insert_write record_effect normalize
  write_value key value tc =
      record_effect (normalize key) Op.write (write value)
        (record tc { cache = insert_write map meter (normalize key) value tc.cache })

  -- The end of `add`: the transform is applied to the current value, and recorded.
  unfoldable pub add_transform :
      Key → Transform V → StoredValue V → TrackingCopy L V E → TrackingCopy L V E × AddResult
  unfolding apply insert_write record_effect
  add_transform key transform current_value tc = elim (apply transform current_value) [
    | ok new_value ↦ (
      record_effect key Op.add transform
          (record tc { cache = insert_write map meter key new_value tc.cache }),
      success,
    )
    | err e ↦ (tc, add_result e)
  ]

  -- What follows `get` in `add`.
  unfoldable pub add_after :
      Key
      → Result AddResult (Transform V)
      → TrackingCopy L V E × Result E (Option (StoredValue V))
      → TrackingCopy L V E × Result E AddResult
  unfolding add_transform
  add_after key addition (tc, err e) = (tc, err e)
  add_after key addition (tc, ok none) = (tc, ok (key_not_found key))
  add_after key (err r) (tc, ok (some current_value)) = (tc, ok r)
  add_after key (ok transform) (tc, ok (some current_value)) =
      let (tc', r) = add_transform key transform current_value tc in (tc', ok r)

  unfoldable pub add_value :
      (V → Option (Result BytesreprError (String × Key)))
      → Key
      → StoredValue V
      → TrackingCopy L V E
      → TrackingCopy L V E × Result E AddResult
  unfolding get transform_of add_after normalize
  add_value named_key key value tc =
      add_after (normalize key) (transform_of named_key value) (get (normalize key) tc)
