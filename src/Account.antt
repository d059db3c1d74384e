-- ===== src/Account.antt =====
-- The account of execution-engine/engine-shared/src/account.rs. A method that takes `&mut self`
-- returns the account as it leaves it, on an error too.
mod Failure
pub mod Thresholds
pub mod Keys
pub mod Codes
pub mod Weights
pub mod Invariant
pub mod Branches
pub mod Authorization
pub mod History
mod Tests
unfoldable pub use Failure.*
use casper_labs.Base.{
  ℕ, min, Bool, true, false, not, ◌&&◌, Option, none, some, List, [], ◌∷◌, ⊤, Result, ok, err, ltb,
  leb, all, if◌then◌else◌,
}
use casper_labs.BtreeMap.{get, contains_key}
use Thresholds.{Weight, ActionThresholds}
use Keys.{PublicKey, AssociatedKeys, saturating_add_u8}

-- The named keys and the main purse are not read by any method below.
pub record Account (NamedKeys PurseId : Type 0) : Type 0 where
  pub public_key : PublicKey
  pub named_keys : NamedKeys
  pub purse_id : PurseId
  pub associated_keys : AssociatedKeys
  pub action_thresholds : ActionThresholds

module _ {N P : Type 0} where
  unfoldable pub create : PublicKey → N → P → Account N P
  create account_addr named_keys purse_id = record {
    public_key = account_addr;
    named_keys = named_keys;
    purse_id = purse_id;
    associated_keys = Keys.new account_addr 1;
    action_thresholds = Thresholds.default;
  }

  unfoldable pub add_associated_key :
      PublicKey → Weight → Account N P → Account N P × Result AddKeyFailure ⊤
  unfolding Keys.add_key
  add_associated_key public_key weight a =
      let (ks, r) = Keys.add_key public_key weight a.associated_keys in
      (record a { associated_keys = ks }, r)

  unfoldable pub can_remove_key : PublicKey → Account N P → Bool
  can_remove_key public_key a =
      let total_weight_without : Weight =
        Keys.total_keys_weight_excluding public_key a.associated_keys in
      leb a.action_thresholds.deployment total_weight_without
      && leb a.action_thresholds.key_management total_weight_without

  unfoldable pub can_update_key : PublicKey → Weight → Account N P → Bool
  can_update_key public_key weight a =
      let total_weight : Weight = Keys.total_keys_weight_excluding public_key a.associated_keys in
      let new_weight : Weight = saturating_add_u8 total_weight weight in
      leb a.action_thresholds.deployment new_weight
      && leb a.action_thresholds.key_management new_weight

  -- `self.associated_keys.remove_key(&public_key)`
  remove_from_keys : PublicKey → Account N P → Account N P × Result RemoveKeyFailure ⊤
  unfolding Keys.remove_key
  remove_from_keys public_key a =
      let (ks, r) = Keys.remove_key public_key a.associated_keys in
      (record a { associated_keys = ks }, r)

  unfoldable pub remove_associated_key :
      PublicKey → Account N P → Account N P × Result RemoveKeyFailure ⊤
  unfolding remove_from_keys can_remove_key
  remove_associated_key public_key a =
      if contains_key public_key a.associated_keys && not (can_remove_key public_key a)
      then (a, err RemoveKeyFailure.threshold_violation)
      else remove_from_keys public_key a

  -- `if let Some(current_weight) = …`: the new weight is smaller, and too small.
  lowers_too_far : PublicKey → Weight → Account N P → Bool
  unfolding can_update_key
  lowers_too_far public_key weight a = elim (get public_key a.associated_keys) [
    | some current_weight ↦ ltb weight current_weight && not (can_update_key public_key weight a)
    | none ↦ false
  ]

  update_in_keys : PublicKey → Weight → Account N P → Account N P × Result UpdateKeyFailure ⊤
  unfolding Keys.update_key
  update_in_keys public_key weight a =
      let (ks, r) = Keys.update_key public_key weight a.associated_keys in
      (record a { associated_keys = ks }, r)

  unfoldable pub update_associated_key :
      PublicKey → Weight → Account N P → Account N P × Result UpdateKeyFailure ⊤
  unfolding lowers_too_far update_in_keys
  update_associated_key public_key weight a =
      if lowers_too_far public_key weight a
      then (a, err UpdateKeyFailure.threshold_violation)
      else update_in_keys public_key weight a

  unfoldable pub can_set_threshold : Weight → Account N P → Result SetThresholdFailure ⊤
  can_set_threshold new_threshold a =
      if ltb (Keys.total_keys_weight a.associated_keys) new_threshold
      then err insufficient_total_weight
      else ok tt

  set_in_thresholds : ActionType → Weight → Account N P → Account N P × Result SetThresholdFailure ⊤
  unfolding Thresholds.set_threshold
  set_in_thresholds action_type weight a =
      let (t, r) = Thresholds.set_threshold action_type weight a.action_thresholds in
      (record a { action_thresholds = t }, r)

  unfoldable pub set_action_threshold :
      ActionType → Weight → Account N P → Account N P × Result SetThresholdFailure ⊤
  unfolding can_set_threshold set_in_thresholds
  set_action_threshold action_type weight a = elim (can_set_threshold weight a) [
    | err e ↦ (a, err e)
    | ok _ ↦ set_in_thresholds action_type weight a
  ]

  -- `authorization_keys` is a `BTreeSet`.
  unfoldable pub can_authorize : List PublicKey → Account N P → Bool
  can_authorize [] a = false
  can_authorize (k ∷ ks) a = all (λ e. contains_key e a.associated_keys) (k ∷ ks)

  unfoldable pub can_deploy_with : List PublicKey → Account N P → Bool
  can_deploy_with authorization_keys a =
      leb a.action_thresholds.deployment
        (Keys.calculate_keys_weight a.associated_keys authorization_keys)

  unfoldable pub can_manage_keys_with : List PublicKey → Account N P → Bool
  can_manage_keys_with authorization_keys a =
      leb a.action_thresholds.key_management
        (Keys.calculate_keys_weight a.associated_keys authorization_keys)
