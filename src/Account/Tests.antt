-- ===== src/Account/Tests.antt =====
-- Accounts at concrete inputs.
use casper_labs.Base.{ℕ, ◌≡◌, refl, false, List, [], ◌∷◌, ok, err, arith}
use casper_labs.Account.{
  Account, ActionType, RemoveKeyFailure, remove_associated_key, can_authorize,
}
use casper_labs.Account.Keys.{total_keys_weight, total_keys_weight_excluding}
use casper_labs.Account.Invariant.{IsValid}
use casper_labs.Account.Branches.{ThresholdOutcome, set_action_threshold-branches}
use casper_labs.Account.History.{
  Op, add, remove_op, set_threshold, run, run-IsValid, remove_only_key,
}

-- Keys 1, 2 and 3 with weights 1, 2 and 3; deploying takes 2, managing keys takes 4.
abbrev trio : Account ℕ ℕ
trio = record {
  public_key = 1;
  named_keys = 0;
  purse_id = 0;
  associated_keys = (1, 1) ∷ (2, 2) ∷ (3, 3) ∷ [];
  action_thresholds = record { deployment = 2; key_management = 4 };
}

trio-IsValid : IsValid trio
unfolding total_keys_weight
trio-IsValid = ground arith

abbrev solo : Account ℕ ℕ
solo = record {
  public_key = 7;
  named_keys = 0;
  purse_id = 0;
  associated_keys = (7, 1) ∷ [];
  action_thresholds = record { deployment = 0; key_management = 0 };
}

-- The key of weight 3 is needed for managing keys; that of weight 2 is not.
removals :
    ((remove_associated_key 3 trio).1 ≡ err RemoveKeyFailure.threshold_violation)
    × ((remove_associated_key 2 trio).0.associated_keys ≡ (1, 1) ∷ (3, 3) ∷ [])
unfolding remove_associated_key total_keys_weight_excluding
removals = (refl, refl)

set_action_threshold-branches_example : ThresholdOutcome 5 trio
set_action_threshold-branches_example = set_action_threshold-branches 5 trio (omega arith)

abbrev signers : List ℕ
signers = 2 ∷ 9 ∷ []

run-IsValid_example : IsValid (run (remove_op 2 ∷ add 9 1 ∷ []) trio)
run-IsValid_example = run-IsValid (remove_op 2 ∷ add 9 1 ∷ []) trio trio-IsValid

abbrev calls : List Op
calls = add 8 5 ∷ set_threshold ActionType.key_management 6 ∷ remove_op 7 ∷ []

remove_only_key_example :
    ((remove_associated_key 7 solo).1 ≡ ok tt)
    × (can_authorize (7 ∷ []) (remove_associated_key 7 solo).0 ≡ false)
remove_only_key_example = remove_only_key 7 1 solo (7 ∷ []) refl refl refl
