-- ===== src/Account/Authorization.antt =====
-- Who may act for an account: `can_authorize`, `can_deploy_with` and `can_manage_keys_with` of
-- execution-engine/engine-shared/src/account.rs.
use casper_labs.Base.{◌≡◌, true, List, arith}
use casper_labs.Account.{Account, can_deploy_with, can_manage_keys_with}
use casper_labs.Account.Keys.{PublicKey}
use casper_labs.Account.Invariant.{IsValid}

module _ {N P : Type 0} (ks : List PublicKey) (a : Account N P) where
  -- In a valid account, keys that may manage keys may also deploy.
  pub manage_implies_deploy :
      IsValid a → can_manage_keys_with ks a ≡ true → can_deploy_with ks a ≡ true
  unfolding can_deploy_with can_manage_keys_with
  manage_implies_deploy h m = ground arith
