-- ===== src/Bytes/Accounts.antt =====
-- The encodings of accounts: execution-engine/engine-shared/src/account.rs and
-- execution-engine/engine-shared/src/account/{action_thresholds,associated_keys}.rs. The encoding of the
-- named keys, a map from texts, is given.
use casper_labs.Base.{
  ℕ, ◌+◌, ◌*◌, Option, none, some, [], ◌∷◌, ◌++◌, length, Result, ok, err, ◌>>=◌, leb,
  if◌then◌else◌,
}
use casper_labs.BtreeMap.{BtreeMap}
use casper_labs.Account.{Account}
use casper_labs.Account.Thresholds.{ActionThresholds}
use casper_labs.Account.Keys.{AssociatedKeys, add_key}
use casper_labs.Types.{URef}
use casper_labs.Values.{BytesreprError, out_of_memory_error}
use casper_labs.Bytes.{Bytes, Codec}
use casper_labs.Bytes.Numbers.{u8_codec, array_codec}
use casper_labs.Bytes.Containers.{u32_max_value, btree_codec}
use casper_labs.Bytes.Shared.{uref_codec}

unfoldable pub action_thresholds_codec : Codec ActionThresholds
unfolding u8_codec
action_thresholds_codec = record {
  to_bytes = λ t. u8_codec.to_bytes t.deployment >>= λ x.
      u8_codec.to_bytes t.key_management >>= λ y. ok (x ++ y);
  from_bytes = λ bytes. u8_codec.from_bytes bytes >>= λ (deployment, rem).
      u8_codec.from_bytes rem >>= λ (key_management, rem').
      ok (record { deployment = deployment; key_management = key_management }, rem');
}

abbrev pub keys_map_codec : Codec (BtreeMap ℕ)
keys_map_codec = btree_codec u8_codec (array_codec 32)

-- `keys.add_key(k, v).unwrap()` for each entry; `none` is the panic.
unfoldable pub add_all_keys : AssociatedKeys → BtreeMap ℕ → Option AssociatedKeys
add_all_keys keys [] = some keys
add_all_keys keys ((k, v) ∷ m) =
    let (keys', added) = add_key k v keys in
    elim added [ ok _ ↦ add_all_keys keys' m | err _ ↦ none ]

-- `AssociatedKeys::from_bytes`
unfoldable pub associated_keys_from_bytes :
    Bytes → Option (Result BytesreprError (AssociatedKeys × Bytes))
unfolding add_all_keys
associated_keys_from_bytes bytes = elim (keys_map_codec.from_bytes bytes) [
  | err e ↦ some (err e)
  | ok (keys_map, rem) ↦ elim (add_all_keys [] keys_map) [
    | some keys ↦ some (ok (keys, rem))
    | none ↦ none
  ]
]

module _ {N : Type 0} (named : Codec N) (size : N → ℕ) where
  -- `size` is the number of named keys.
  unfoldable pub serialized_account_size : Account N URef → ℕ
  serialized_account_size a =
      32 + (35 * size a.named_keys + 4) + 35 + (length a.associated_keys * 33 + 4) + 4

  unfoldable pub account_to_bytes : Account N URef → Result BytesreprError Bytes
  unfolding serialized_account_size
  account_to_bytes a =
      if leb u32_max_value (serialized_account_size a)
      then err out_of_memory_error
      else ((array_codec 32).to_bytes a.public_key >>= λ x. named.to_bytes a.named_keys >>= λ y.
          uref_codec.to_bytes a.purse_id >>= λ z. keys_map_codec.to_bytes a.associated_keys >>= λ u.
          action_thresholds_codec.to_bytes a.action_thresholds >>= λ w.
          ok (x ++ (y ++ (z ++ (u ++ w)))))

  -- The parts after the associated keys.
  unfoldable pub account_end :
      ℕ
      → N
      → URef
      → Result BytesreprError (AssociatedKeys × Bytes)
      → Result BytesreprError (Account N URef × Bytes)
  account_end public_key named_keys purse_id keys = keys >>= λ (associated_keys, rem).
      action_thresholds_codec.from_bytes rem >>= λ (action_thresholds, end). ok (
        record {
          public_key = public_key;
          named_keys = named_keys;
          purse_id = purse_id;
          associated_keys = associated_keys;
          action_thresholds = action_thresholds;
        },
        end,
      )

  unfoldable pub account_start : Bytes → Result BytesreprError (ℕ × N × URef × Bytes)
  account_start bytes = (array_codec 32).from_bytes bytes >>= λ (public_key, rem).
      named.from_bytes rem >>= λ (named_keys, rem').
      uref_codec.from_bytes rem' >>= λ (purse_id, end). ok (public_key, named_keys, purse_id, end)

  unfoldable pub account_from_bytes :
      Bytes → Option (Result BytesreprError (Account N URef × Bytes))
  unfolding associated_keys_from_bytes account_start account_end
  account_from_bytes bytes = elim (account_start bytes) [
    | err e ↦ some (err e)
    | ok (public_key, named_keys, purse_id, rem) ↦ elim (associated_keys_from_bytes rem) [
      | some keys ↦ some (account_end public_key named_keys purse_id keys)
      | none ↦ none
    ]
  ]
