-- ===== src/Account/Thresholds.antt =====
-- The thresholds of an account's two kinds of action:
-- execution-engine/engine-shared/src/account/action_thresholds.rs. A `Weight` is a `u8`.
use casper_labs.Base.{ℕ, Result, ok, err, ⊤, ltb, if◌then◌else◌}
use casper_labs.Account.Failure.{
  ActionType, SetThresholdFailure, key_management_threshold_error, deployment_threshold_error,
}

abbrev pub Weight : Type 0
Weight = ℕ

pub record ActionThresholds : Type 0 where
  pub deployment : Weight
  pub key_management : Weight

unfoldable pub new : Weight → Weight → Result SetThresholdFailure ActionThresholds
new deployment key_management =
    if ltb key_management deployment
    then err deployment_threshold_error
    else ok (record { deployment = deployment; key_management = key_management })

-- `ActionThresholds::default`
abbrev pub default : ActionThresholds
default = record { deployment = 1; key_management = 1 }

unfoldable pub set_deployment_threshold :
    Weight → ActionThresholds → ActionThresholds × Result SetThresholdFailure ⊤
set_deployment_threshold new_threshold t =
    if ltb t.key_management new_threshold
    then (t, err deployment_threshold_error)
    else (record t { deployment = new_threshold }, ok tt)

unfoldable pub set_key_management_threshold :
    Weight → ActionThresholds → ActionThresholds × Result SetThresholdFailure ⊤
set_key_management_threshold new_threshold t =
    if ltb new_threshold t.deployment
    then (t, err key_management_threshold_error)
    else (record t { key_management = new_threshold }, ok tt)

unfoldable pub set_threshold :
    ActionType → Weight → ActionThresholds → ActionThresholds × Result SetThresholdFailure ⊤
unfolding set_deployment_threshold set_key_management_threshold
set_threshold ActionType.deployment w t = set_deployment_threshold w t
set_threshold ActionType.key_management w t = set_key_management_threshold w t
