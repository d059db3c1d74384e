-- ===== src/Account/Keys.antt =====
-- The keys of an account with their weights:
-- execution-engine/engine-shared/src/account/associated_keys.rs. A `PublicKey` is a `[u8; 32]`.
use casper_labs.Base.{
  ℕ, ◌+◌, min, not, none, some, List, [], ◌∷◌, ⊤, Result, ok, err, length, ◌==◌, if◌then◌else◌,
}
use casper_labs.BtreeMap.{BtreeMap, get, contains_key, insert, remove, keys}
use casper_labs.Account.Failure.{AddKeyFailure, RemoveKeyFailure, UpdateKeyFailure}
use casper_labs.Account.Thresholds.{Weight}

abbrev pub PublicKey : Type 0
PublicKey = ℕ

abbrev pub AssociatedKeys : Type 0
AssociatedKeys = BtreeMap Weight

-- `MAX_KEYS`
abbrev pub max_keys : ℕ
max_keys = 10

abbrev pub new : PublicKey → Weight → AssociatedKeys
new key weight = insert key weight []

unfoldable pub add_key :
    PublicKey → Weight → AssociatedKeys → AssociatedKeys × Result AddKeyFailure ⊤
add_key key weight ks =
    if length ks == max_keys
    then (ks, err AddKeyFailure.max_keys_limit)
    else if contains_key key ks
    then (ks, err AddKeyFailure.duplicate_key)
    else (insert key weight ks, ok tt)

-- `BTreeMap::remove` returns the removed value, if there was one.
unfoldable pub remove_key : PublicKey → AssociatedKeys → AssociatedKeys × Result RemoveKeyFailure ⊤
remove_key key ks =
    (remove key ks, elim (get key ks) [ some _ ↦ ok tt | none ↦ err RemoveKeyFailure.missing_key ])

unfoldable pub update_key :
    PublicKey → Weight → AssociatedKeys → AssociatedKeys × Result UpdateKeyFailure ⊤
update_key key weight ks =
    if not (contains_key key ks)
    then (ks, err UpdateKeyFailure.missing_key)
    else (insert key weight ks, ok tt)

-- `u8::saturating_add`
abbrev pub saturating_add_u8 : ℕ → ℕ → ℕ
saturating_add_u8 a b = min 255 (a + b)

-- `.filter_map(|key| self.0.get(key))`
unfoldable pub weights_of : AssociatedKeys → List PublicKey → List Weight
weights_of ks [] = []
weights_of ks (k ∷ rest) =
    let found = weights_of ks rest in elim (get k ks) [ some w ↦ w ∷ found | none ↦ found ]

-- `.fold(0u8, |acc, w| acc.saturating_add(w.value()))`
unfoldable pub fold_weights : ℕ → List Weight → ℕ
fold_weights acc [] = acc
fold_weights acc (w ∷ ws) = fold_weights (saturating_add_u8 acc w) ws

unfoldable pub calculate_any_keys_weight : AssociatedKeys → List PublicKey → Weight
unfolding weights_of fold_weights
calculate_any_keys_weight ks js = fold_weights 0 (weights_of ks js)

-- The argument is a `BTreeSet`: its keys in ascending order.
unfoldable pub calculate_keys_weight : AssociatedKeys → List PublicKey → Weight
unfolding calculate_any_keys_weight
calculate_keys_weight ks authorization_keys = calculate_any_keys_weight ks authorization_keys

unfoldable pub total_keys_weight : AssociatedKeys → Weight
unfolding calculate_any_keys_weight
total_keys_weight ks = calculate_any_keys_weight ks (keys ks)

-- `.filter(|&&element| element != public_key)`
unfoldable pub keys_except : PublicKey → List PublicKey → List PublicKey
keys_except k [] = []
keys_except k (j ∷ js) = let rest = keys_except k js in if j == k then rest else j ∷ rest

unfoldable pub total_keys_weight_excluding : PublicKey → AssociatedKeys → Weight
unfolding calculate_any_keys_weight keys_except
total_keys_weight_excluding public_key ks =
    calculate_any_keys_weight ks (keys_except public_key (keys ks))
