-- ===== src/Bytes/AccountLaws.antt =====
-- Accounts, encoded as in execution-engine/engine-shared/src/account.rs and account/associated_keys.rs.
use casper_labs.Base.{
  ℕ, ◌+◌, ◌≤◌, ◌<◌, ◌≡◌, refl, ap, sym, none, some, [], ◌∷◌, ◌++◌, append_assoc, append-nil, length,
  length-append, All, Result, ok, >>=-ok, leb, ⊤, arith,
}
use casper_labs.BtreeMap.{BtreeMap, get, keys, IsAscending}
use casper_labs.Account.{Account}
use casper_labs.Account.Keys.{AssociatedKeys, add_key, max_keys}
use casper_labs.Types.{URef}
use casper_labs.Values.{BytesreprError}
use casper_labs.Bytes.{Bytes, Codec}
use casper_labs.Bytes.Laws.{RoundTrips}
use casper_labs.Bytes.Numbers.{u8_codec, array_codec}
use casper_labs.Bytes.Integers.{u8_codec-RoundTrips, array_codec-RoundTrips}
use casper_labs.Bytes.Containers.{u32_max_value}
use casper_labs.Bytes.Sequences.{not_too_long}
use casper_labs.Bytes.Maps.{
  insert-above, Below, Follows, IsAscending-Follows, All-nothing, ValidEntries,
  btree_codec-RoundTrips,
}
use casper_labs.Bytes.Shared.{uref_codec}
use casper_labs.Bytes.SharedLaws.{IsAddress, URefInRange, uref_codec-RoundTrips}
use casper_labs.Bytes.Accounts.{
  action_thresholds_codec, keys_map_codec, add_all_keys, associated_keys_from_bytes,
  account_to_bytes, account_start, account_end, account_from_bytes, serialized_account_size,
}

get-Below : (m : BtreeMap ℕ) (k : ℕ) → Below m k → get k m ≡ none
get-Below [] k b = refl
get-Below ((j, w) ∷ m) k (lt, b) = ground (arith, get-Below m k b)

add_key-above :
    (m : AssociatedKeys) (k v : ℕ)
    → Below m k
    → length m < max_keys
    → add_key k v m ≡ (m ++ (k, v) ∷ [], ok tt)
unfolding add_key
add_key-above m k v b few = ground (arith, get-Below m k b, insert-above m k v b)

-- Keys in ascending order, no more than an account may have, are all added.
add_all_keys-append :
    (m done : AssociatedKeys)
    → Follows done m
    → length done + length m ≤ max_keys
    → add_all_keys done m ≡ some (done ++ m)
unfolding add_all_keys
add_all_keys-append [] done f few = ap some (sym (append-nil done))
add_all_keys-append ((k, v) ∷ m) done (b, f) few = ground (
  arith,
  add_key-above done k v b,
  append_assoc done ((k, v) ∷ []) m,
  length-append done ((k, v) ∷ []),
  add_all_keys-append m (done ++ (k, v) ∷ []) f,
)

abbrev pub KeysInRange : AssociatedKeys → Type 0
KeysInRange m = All IsAddress (keys m) × IsAscending (keys m) × (length m ≤ max_keys)

entries : (m : AssociatedKeys) → All IsAddress (keys m) → ValidEntries IsAddress (λ _. ⊤) m
entries [] h = tt
entries ((k, v) ∷ m) (a, h) = (a, tt, entries m h)

associated_keys_from_bytes-append :
    (m : AssociatedKeys) (bytes rest : Bytes)
    → KeysInRange m
    → keys_map_codec.to_bytes m ≡ ok bytes
    → associated_keys_from_bytes (bytes ++ rest) ≡ some (ok (m, rest))
unfolding associated_keys_from_bytes
associated_keys_from_bytes-append m bytes rest (a, s, few) e = ground (
  arith,
  btree_codec-RoundTrips (array_codec 32) u8_codec (array_codec-RoundTrips 32) u8_codec-RoundTrips m
      bytes rest (entries m a, s, omega arith) e,
  add_all_keys-append m [] (IsAscending-Follows [] m (All-nothing (keys m)) s),
)

action_thresholds_codec-RoundTrips : RoundTrips action_thresholds_codec (λ _. ⊤)
unfolding action_thresholds_codec
action_thresholds_codec-RoundTrips t bytes rest v e = ground arith

module _ {N : Type 0} {P : N → Type 0} (named : Codec N) (rt : RoundTrips named P)
    (size : N → ℕ) where
  -- The account's own parts are in range, and its named keys are valid.
  pub record AccountInRange (a : Account N URef) : Type 0 where
    pub address : IsAddress a.public_key
    pub names : P a.named_keys
    pub purse : URefInRange a.purse_id
    pub keys_in_range : KeysInRange a.associated_keys

  account_start-append :
      (a : Account N URef) (x y z tail : Bytes)
      → AccountInRange a
      → (array_codec 32).to_bytes a.public_key ≡ ok x
      → named.to_bytes a.named_keys ≡ ok y
      → uref_codec.to_bytes a.purse_id ≡ ok z
      → account_start named size (x ++ (y ++ (z ++ tail)))
        ≡ ok (a.public_key, a.named_keys, a.purse_id, tail)
  unfolding account_start
  account_start-append a x y z tail v h i j = ground (
    arith,
    array_codec-RoundTrips 32 a.public_key x (y ++ (z ++ tail)) v.address h,
    rt a.named_keys y (z ++ tail) v.names i,
    uref_codec-RoundTrips a.purse_id z tail v.purse j,
  )

  append_assoc4 :
      (x y z u w rest : Bytes)
      → (x ++ (y ++ (z ++ (u ++ w)))) ++ rest ≡ x ++ (y ++ (z ++ (u ++ (w ++ rest))))
  append_assoc4 x y z u w rest = simp append_assoc

  account_parts :
      (a : Account N URef) (x y z u w bytes rest : Bytes)
      → AccountInRange a
      → (array_codec 32).to_bytes a.public_key ≡ ok x
      → named.to_bytes a.named_keys ≡ ok y
      → uref_codec.to_bytes a.purse_id ≡ ok z
      → keys_map_codec.to_bytes a.associated_keys ≡ ok u
      → action_thresholds_codec.to_bytes a.action_thresholds ≡ ok w
      → ◌≡◌ {A = Result BytesreprError Bytes} (ok (x ++ (y ++ (z ++ (u ++ w))))) (ok bytes)
      → account_from_bytes named size (bytes ++ rest) ≡ some (ok (a, rest))
  unfolding account_from_bytes account_end
  account_parts a x y z u w bytes rest v h i j k l e = ground (
    arith,
    append_assoc4 x y z u w rest,
    account_start-append a x y z (u ++ (w ++ rest)) v h i j,
    associated_keys_from_bytes-append a.associated_keys u (w ++ rest) v.keys_in_range k,
    action_thresholds_codec-RoundTrips a.action_thresholds w rest tt l,
  )

  -- An account in range whose bytes could be written is read back as it was, whatever follows them, and
  -- reading does not panic, if the encoding of named keys is read back.
  pub account_from_bytes-account_to_bytes :
      (a : Account N URef) (bytes rest : Bytes)
      → AccountInRange a
      → account_to_bytes named size a ≡ ok bytes
      → account_from_bytes named size (bytes ++ rest) ≡ some (ok (a, rest))
  unfolding account_to_bytes account_from_bytes
  account_from_bytes-account_to_bytes a bytes rest v e =
      let (x, h, e1) =
        >>=-ok ((array_codec 32).to_bytes a.public_key) _
          (not_too_long (leb u32_max_value (serialized_account_size named size a)) _ _ e) in
      let (y, i, e2) = >>=-ok (named.to_bytes a.named_keys) _ e1 in
      let (z, j, e3) = >>=-ok (uref_codec.to_bytes a.purse_id) _ e2 in
      let (u, k, e4) = >>=-ok (keys_map_codec.to_bytes a.associated_keys) _ e3 in
      let (w, l, e5) = >>=-ok (action_thresholds_codec.to_bytes a.action_thresholds) _ e4 in
      account_parts a x y z u w bytes rest v h i j k l e5
