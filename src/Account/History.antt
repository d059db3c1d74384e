-- ===== src/Account/History.antt =====
-- Accounts after any sequence of the operations of execution-engine/engine-shared/src/account.rs.
use casper_labs.Base.{◌≡◌, false, List, [], ◌∷◌, ok, arith}
use casper_labs.Account.{
  Account, ActionType, add_associated_key, remove_associated_key, update_associated_key,
  set_action_threshold, can_authorize,
}
use casper_labs.Account.Thresholds.{Weight}
use casper_labs.Account.Keys.{PublicKey}
use casper_labs.Account.Invariant.{
  IsValid, add_associated_key-IsValid, remove_associated_key-IsValid, update_associated_key-IsValid,
  set_action_threshold-IsValid,
}

-- A call of one of the operations.
pub data Op : Type 0 where
  add update : PublicKey → Weight → Op
  remove_op : PublicKey → Op
  set_threshold : ActionType → Weight → Op

module _ {N P : Type 0} where
  -- The account after the call, whether it failed or not.
  abbrev pub apply : Op → Account N P → Account N P
  apply (add k w) a = (add_associated_key k w a).0
  apply (update k w) a = (update_associated_key k w a).0
  apply (remove_op k) a = (remove_associated_key k a).0
  apply (set_threshold t w) a = (set_action_threshold t w a).0

  abbrev pub run : List Op → Account N P → Account N P
  run [] a = a
  run (op ∷ ops) a = run ops (apply op a)

  apply-IsValid : (op : Op) (a : Account N P) → IsValid a → IsValid (apply op a)
  apply-IsValid (add k w) a h = add_associated_key-IsValid k w a h
  apply-IsValid (update k w) a h = update_associated_key-IsValid k w a h
  apply-IsValid (remove_op k) a h = remove_associated_key-IsValid k a h
  apply-IsValid (set_threshold t w) a h = set_action_threshold-IsValid t w a h

  -- Every operation, failing or not, keeps the invariant of accounts, and so does every sequence of
  -- operations.
  pub run-IsValid : (ops : List Op) (a : Account N P) → IsValid a → IsValid (run ops a)
  run-IsValid [] a h = h
  run-IsValid (op ∷ ops) a h = run-IsValid ops (apply op a) (apply-IsValid op a h)

  -- Where both thresholds are zero, the only key of an account can be removed, and after that no
  -- keys at all are authorized to act for it.
  pub remove_only_key :
      (k : PublicKey) (w : Weight) (a : Account N P) (ks : List PublicKey)
      → a.associated_keys ≡ (k, w) ∷ []
      → a.action_thresholds.deployment ≡ 0
      → a.action_thresholds.key_management ≡ 0
      → ((remove_associated_key k a).1 ≡ ok tt)
        × (can_authorize ks (remove_associated_key k a).0 ≡ false)
  unfolding remove_associated_key can_authorize
  remove_only_key k w a [] e d m = ground arith
  remove_only_key k w a (j ∷ ks) e d m = ground arith
