-- ===== src/Account/Branches.antt =====
-- Each operation of execution-engine/engine-shared/src/account.rs on each of its branches.
use casper_labs.Base.{
  ◌≤◌, ◌<◌, ◌≡◌, ◌≢◌, inl, inr, none, some, arith, length, Option, ok, err, Option-cases, ltb, ◌==◌,
  if◌then◌else◌, Bool-cases, min, max, sum, ◌+◌, ◌⊎◌,
}
use casper_labs.BtreeMap.{get, remove, keys, values, IsAscending}
use casper_labs.BtreeMap.Lookup.{get-insert}
use casper_labs.Account.{
  Account, ActionType, AddKeyFailure, RemoveKeyFailure, UpdateKeyFailure, insufficient_total_weight,
  deployment_threshold_error, key_management_threshold_error, add_associated_key,
  remove_associated_key, update_associated_key, set_action_threshold, lowers_too_far,
}
use casper_labs.Account.Thresholds.{Weight}
use casper_labs.Account.Keys.{PublicKey, AssociatedKeys, max_keys}
use casper_labs.Account.Weights.{total_keys_weight-eq-min, total_keys_weight_excluding-eq-min}

-- The map `m'` is `m` with the entry of `k` set to `o`.
abbrev pub Differs : PublicKey → Option Weight → AssociatedKeys → AssociatedKeys → Type 0
Differs k o m m' = (j : PublicKey) → get j m' ≡ (if j == k then o else get j m)

-- The larger of the two thresholds of an account, which its keys together must reach.
abbrev pub demand : {N P : Type 0} → Account N P → Weight
demand a = max a.action_thresholds.deployment a.action_thresholds.key_management

module _ {N P : Type 0} where
  -- What adding, updating and removing a key and setting a threshold may come to.
  abbrev pub AddOutcome : PublicKey → Weight → Account N P → Type 0
  AddOutcome k w a =
      (length a.associated_keys ≡ max_keys)
        × (add_associated_key k w a ≡ (a, err AddKeyFailure.max_keys_limit))
      ⊎ (length a.associated_keys ≢ max_keys)
        × (get k a.associated_keys ≢ none)
        × (add_associated_key k w a ≡ (a, err AddKeyFailure.duplicate_key))
      ⊎ (length a.associated_keys ≢ max_keys)
        × (get k a.associated_keys ≡ none)
        × ((add_associated_key k w a).1 ≡ ok tt)
        × Differs k (some w) a.associated_keys (add_associated_key k w a).0.associated_keys

  abbrev pub UpdateOutcome : PublicKey → Weight → Account N P → Type 0
  UpdateOutcome k w a =
      (get k a.associated_keys ≡ none)
        × (update_associated_key k w a ≡ (a, err UpdateKeyFailure.missing_key))
      ⊎ ((u : Weight) × (get k a.associated_keys ≡ some u)
          × (w < u)
          × (min 255 (min 255 (sum (values (remove k a.associated_keys))) + w) < demand a)
          × (update_associated_key k w a ≡ (a, err UpdateKeyFailure.threshold_violation)))
      ⊎ ((u : Weight) × (get k a.associated_keys ≡ some u)
          × ((u ≤ w)
              ⊎ (demand a ≤ min 255 (min 255 (sum (values (remove k a.associated_keys))) + w)))
          × ((update_associated_key k w a).1 ≡ ok tt)
          × Differs k (some w) a.associated_keys (update_associated_key k w a).0.associated_keys)

  abbrev pub RemoveOutcome : PublicKey → Account N P → Type 0
  RemoveOutcome k a =
      (get k a.associated_keys ≡ none)
        × (remove_associated_key k a ≡ (a, err RemoveKeyFailure.missing_key))
      ⊎ (get k a.associated_keys ≢ none)
        × (min 255 (sum (values (remove k a.associated_keys))) < demand a)
        × (remove_associated_key k a ≡ (a, err RemoveKeyFailure.threshold_violation))
      ⊎ (get k a.associated_keys ≢ none)
        × (demand a ≤ min 255 (sum (values (remove k a.associated_keys))))
        × ((remove_associated_key k a).1 ≡ ok tt)
        × Differs k none a.associated_keys (remove_associated_key k a).0.associated_keys

  abbrev pub ThresholdOutcome : Weight → Account N P → Type 0
  ThresholdOutcome w a =
      (set_action_threshold ActionType.deployment w a ≡ (
        if ltb (min 255 (sum (values a.associated_keys))) w
        then (a, err insufficient_total_weight)
        else if ltb a.action_thresholds.key_management w
        then (a, err deployment_threshold_error)
        else (
          record a { action_thresholds = record a.action_thresholds { deployment = w } },
          ok tt,
        )))
      × (set_action_threshold ActionType.key_management w a ≡ (
          if ltb (min 255 (sum (values a.associated_keys))) w
          then (a, err insufficient_total_weight)
          else if ltb w a.action_thresholds.deployment
          then (a, err key_management_threshold_error)
          else (
            record a { action_thresholds = record a.action_thresholds { key_management = w } },
            ok tt,
          )))

module _ {N P : Type 0} (k : PublicKey) (w : Weight) (a : Account N P) where
  -- Updating a key fails if the key is unknown, else if its weight falls and the keys together
  -- would no longer reach both thresholds, and else the key gets the weight and every other key
  -- keeps its own; a failure leaves the account as it was.
  pub update_associated_key-branches : IsAscending (keys a.associated_keys) → UpdateOutcome k w a
  unfolding update_associated_key
  update_associated_key-branches s = elim (Option-cases (get k a.associated_keys)) [
    | inl e ↦ inl (e, ground arith)
    | inr (u, e) ↦ elim (Bool-cases (lowers_too_far k w a)) [
      | inl f ↦ inr (
          inl (
            u,
            e,
            ground arith,
            ground (arith, total_keys_weight_excluding-eq-min k a.associated_keys s),
            ground arith,
          ))
      | inr f ↦ inr (
          inr (
            u,
            e,
            ground (arith, total_keys_weight_excluding-eq-min k a.associated_keys s),
            ground arith,
            λ j. ground (arith, get-insert k j w a.associated_keys),
          ))
    ]
  ]

module _ {N P : Type 0} (w : Weight) (a : Account N P) where
  -- A threshold above the weight of all keys together is refused. Otherwise a deployment threshold
  -- is set exactly if it is at most the threshold of key management, and a key management threshold
  -- exactly if it is at least that of deployment. A failure leaves the account as it was.
  pub set_action_threshold-branches : IsAscending (keys a.associated_keys) → ThresholdOutcome w a
  unfolding set_action_threshold
  set_action_threshold-branches s = (
    ground (arith, total_keys_weight-eq-min a.associated_keys s),
    ground (arith, total_keys_weight-eq-min a.associated_keys s),
  )
