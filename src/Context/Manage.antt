-- ===== src/Context/Manage.antt =====
-- The calls of execution-engine/engine-core/src/runtime_context/mod.rs that manage the account's keys and
-- that store contracts. A panic is `none`.
use casper_labs.Base.{
  ℕ, ◌+◌, ◌%◌, ◌^◌, Bool, not, Option, none, some, ⊤, Result, ok, err, map_err, if◌then◌else◌,
}
use casper_labs.Base
use casper_labs.Types.{Key, PurseId, uref, local}
use casper_labs.Types
use casper_labs.Account.{
  Account, ActionType, AddKeyFailure, RemoveKeyFailure, UpdateKeyFailure, SetThresholdFailure,
  can_manage_keys_with,
}
use casper_labs.Account
use casper_labs.Account.Keys.{PublicKey}
use casper_labs.Account.Thresholds.{Weight}
use casper_labs.Values.{NamedKeys, StoredValue, cl_value, account, contract}
use casper_labs.TrackingCopy.{LinkedHashMap}
use casper_labs.Context.{
  ContextError, add_key_failure, remove_key_failure, update_key_failure, set_threshold_failure,
  RuntimeContext, Call, check, and_then, is_valid_context, validate_key,
}
use casper_labs.Context.Calls.{
  Environment, validate_value, read_gs_direct, write_direct, read_gs_typed, new_uref_key,
}

-- `TryFrom<StoredValue>` for an account
abbrev pub as_account : {V : Type 0} → StoredValue V → Option (Account NamedKeys PurseId)
as_account (account a) = some a
as_account (cl_value _) = none
as_account (contract _) = none

abbrev pub own_key : {L V E G : Type 0} → RuntimeContext L V E G → Key
own_key c = Types.account c.account.public_key

module _ {L V E G : Type 0} (env : Environment V G) (map : LinkedHashMap L (StoredValue V))
    (meter : Key → StoredValue V → ℕ) where
  unfoldable pub account_to_validated_value :
      Account NamedKeys PurseId → RuntimeContext L V E G → Result (ContextError E) (StoredValue V)
  unfolding validate_value
  account_to_validated_value a c =
      casper_labs.Base.◌>>=◌ (validate_value env map meter (account a) c) (λ _. ok (account a))

  -- The end of a change: the account is checked and written back.
  unfoldable pub write_back :
      Key → Account NamedKeys PurseId × Result (ContextError E) ⊤ → Call L V E G ⊤
  unfolding account_to_validated_value write_direct
  write_back key (a, err e) c = (c, err e)
  write_back key (a, ok _) c =
      and_then (c, account_to_validated_value a c)
        (λ value c'. (write_direct env map meter key value c', ok tt))

  -- What the four calls share: the guards with the error of their own, and the change.
  unfoldable pub manage :
      ContextError E
      → (Account NamedKeys PurseId → Account NamedKeys PurseId × Result (ContextError E) ⊤)
      → Call L V E G ⊤
  unfolding is_valid_context read_gs_typed write_back
  manage denied change c =
      if not (is_valid_context c)
      then (c, err denied)
      else if not (can_manage_keys_with c.authorization_keys c.account)
      then (c, err denied)
      else and_then (read_gs_typed env map meter as_account (own_key c) c)
          (λ a c'. write_back (own_key c) (change a) c')

  -- `map_err(Error::from)`
  abbrev pub failing_with :
      {F : Type 0}
      → (F → ContextError E)
      → Account NamedKeys PurseId × Result F ⊤
      → Account NamedKeys PurseId × Result (ContextError E) ⊤
  failing_with f (a, r) = (a, map_err f r)

  unfoldable pub add_associated_key : PublicKey → Weight → Call L V E G ⊤
  unfolding Account.add_associated_key can_manage_keys_with manage
  add_associated_key public_key weight =
      manage (add_key_failure AddKeyFailure.permission_denied)
        (λ a. failing_with add_key_failure (Account.add_associated_key public_key weight a))

  unfoldable pub remove_associated_key : PublicKey → Call L V E G ⊤
  unfolding Account.remove_associated_key can_manage_keys_with manage
  remove_associated_key public_key =
      manage (remove_key_failure RemoveKeyFailure.permission_denied)
        (λ a. failing_with remove_key_failure (Account.remove_associated_key public_key a))

  unfoldable pub update_associated_key : PublicKey → Weight → Call L V E G ⊤
  unfolding Account.update_associated_key can_manage_keys_with manage
  update_associated_key public_key weight =
      manage (update_key_failure UpdateKeyFailure.permission_denied)
        (λ a. failing_with update_key_failure (Account.update_associated_key public_key weight a))

  unfoldable pub set_action_threshold : ActionType → Weight → Call L V E G ⊤
  unfolding Account.set_action_threshold can_manage_keys_with manage
  set_action_threshold action_type threshold =
      manage (set_threshold_failure SetThresholdFailure.permission_denied_error) (λ a.
        failing_with set_threshold_failure (Account.set_action_threshold action_type threshold a))

  unfoldable pub read_account :
      Key
      → RuntimeContext L V E G
      → Option (RuntimeContext L V E G × Result (ContextError E) (Option (StoredValue V)))
  unfolding validate_key read_gs_direct
  read_account (Types.account a) c =
      some (
        check (validate_key (Types.account a) c) (read_gs_direct env map meter (Types.account a)) c)
  read_account (Types.hash _) c = none
  read_account (uref _) c = none
  read_account (local _) c = none

  unfoldable pub write_account :
      Key
      → Account NamedKeys PurseId
      → RuntimeContext L V E G
      → Option (RuntimeContext L V E G × Result (ContextError E) ⊤)
  unfolding validate_key write_back
  write_account (Types.account k) a c =
      some (check (validate_key (Types.account k) c) (write_back (Types.account k) (a, ok tt)) c)
  write_account (Types.hash _) a c = none
  write_account (uref _) a c = none
  write_account (local _) a c = none

  -- The counter has 32 bits.
  unfoldable pub new_function_address : RuntimeContext L V E G → RuntimeContext L V E G × ℕ
  new_function_address c =
      (record c { fn_store_id = (c.fn_store_id + 1) % 2 ^ 32 }, env.function_address c.fn_store_id)

  abbrev pub address_of :
      RuntimeContext L V E G × Result (ContextError E) Key
      → Option (RuntimeContext L V E G × Result (ContextError E) ℕ)
  address_of (c, err e) = some (c, err e)
  address_of (c, ok (uref u)) = some (c, ok u.addr)
  address_of (c, ok (Types.account _)) = none
  address_of (c, ok (Types.hash _)) = none
  address_of (c, ok (local _)) = none

  unfoldable pub store_function :
      StoredValue V
      → RuntimeContext L V E G
      → Option (RuntimeContext L V E G × Result (ContextError E) ℕ)
  unfolding new_uref_key
  store_function value c = elim (validate_value env map meter value c) [
    | err e ↦ some (c, err e)
    | ok _ ↦ address_of (new_uref_key env map meter value c)
  ]

  unfoldable pub store_function_at_hash : StoredValue V → Call L V E G ℕ
  unfolding new_function_address write_direct
  store_function_at_hash value c =
      let (c', new_hash) = new_function_address c in
      check (validate_value env map meter value c')
        (λ d. (write_direct env map meter (Types.hash new_hash) value d, ok new_hash)) c'
