-- ===== src/Account/Invariant.antt =====
-- What every operation of execution-engine/engine-shared/src/account.rs keeps.
use casper_labs.Base.{◌≤◌, inl, inr, arith, length, Option-cases}
use casper_labs.BtreeMap.{get, insert, remove, keys, IsAscending}
use casper_labs.BtreeMap.Order.{
  insert-IsAscending, remove-IsAscending, length-insert_new, length-insert_old, length-remove,
}
use casper_labs.Account.{
  Account, ActionType, create, add_associated_key, remove_associated_key, update_associated_key,
  set_action_threshold,
}
use casper_labs.Account.Thresholds.{Weight}
use casper_labs.Account.Keys.{PublicKey, max_keys, total_keys_weight}
use casper_labs.BtreeMap.Totals.{sum-remove, sum-remove-none, sum-insert}
use casper_labs.Account.Weights.{total_keys_weight-eq-min, total_keys_weight_excluding-eq-min}

-- The keys are a map of at most `max_keys` entries, deploying never needs more weight than managing
-- keys, and all keys together have enough weight to manage keys.
pub record IsValid {N P : Type 0} (a : Account N P) : Type 0 where
  pub ascending : IsAscending (keys a.associated_keys)
  pub few : length a.associated_keys ≤ max_keys
  pub ordered : a.action_thresholds.deployment ≤ a.action_thresholds.key_management
  pub covered : a.action_thresholds.key_management ≤ total_keys_weight a.associated_keys

module _ {N P : Type 0} where
  pub create-IsValid : (k : PublicKey) (names : N) (purse : P) → IsValid (create k names purse)
  unfolding create total_keys_weight
  create-IsValid k names purse = ground arith

  pub add_associated_key-IsValid :
      (k : PublicKey) (w : Weight) (a : Account N P)
      → IsValid a
      → IsValid (add_associated_key k w a).0
  unfolding add_associated_key
  add_associated_key-IsValid k w a h = ground (
    arith,
    insert-IsAscending k w a.associated_keys h.ascending,
    length-insert_new k w a.associated_keys,
    sum-insert k w a.associated_keys h.ascending,
    sum-remove-none k a.associated_keys,
    total_keys_weight-eq-min a.associated_keys h.ascending,
    total_keys_weight-eq-min (insert k w a.associated_keys),
  )

  pub remove_associated_key-IsValid :
      (k : PublicKey) (a : Account N P) → IsValid a → IsValid (remove_associated_key k a).0
  unfolding remove_associated_key
  remove_associated_key-IsValid k a h = ground (
    arith,
    remove-IsAscending k a.associated_keys h.ascending,
    length-remove k a.associated_keys,
    sum-remove-none k a.associated_keys,
    total_keys_weight-eq-min a.associated_keys h.ascending,
    total_keys_weight_excluding-eq-min k a.associated_keys h.ascending,
    total_keys_weight-eq-min (remove k a.associated_keys),
  )

  pub update_associated_key-IsValid :
      (k : PublicKey) (w : Weight) (a : Account N P)
      → IsValid a
      → IsValid (update_associated_key k w a).0
  unfolding update_associated_key
  update_associated_key-IsValid k w a h = elim (Option-cases (get k a.associated_keys)) [
    | inl unknown ↦ ground arith
    | inr (u, known) ↦ ground (
      arith,
      insert-IsAscending k w a.associated_keys h.ascending,
      length-insert_old k w u a.associated_keys h.ascending known,
      sum-insert k w a.associated_keys h.ascending,
      sum-remove k u a.associated_keys known,
      total_keys_weight-eq-min a.associated_keys h.ascending,
      total_keys_weight_excluding-eq-min k a.associated_keys h.ascending,
      total_keys_weight-eq-min (insert k w a.associated_keys),
    )
  ]

  pub set_action_threshold-IsValid :
      (t : ActionType) (w : Weight) (a : Account N P)
      → IsValid a
      → IsValid (set_action_threshold t w a).0
  unfolding set_action_threshold
  set_action_threshold-IsValid t w a h = ground arith
