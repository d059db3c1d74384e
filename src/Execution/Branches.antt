-- ===== src/Execution/Branches.antt =====
-- `ExecutionResultBuilder::build` and `ExecutionResult::check_forced_transfer` of
-- execution-engine/engine-core/src/engine_state/execution_result.rs, on each of their branches.
use casper_labs.Base.{
  ℕ, ◌+◌, ◌*◌, ◌≤◌, ◌≡◌, ◌↔◌, ◌⊎◌, Option, none, some, Bool, true, false, Result, arith,
}
use casper_labs.Types.{Key, u512_max}
use casper_labs.Values.{StoredValue}
use casper_labs.Execution.{
  ExecutionEffect, ExecutionResult, failure, success, ExecutionResultBuilder, no_effect, is_failure,
  cost, effect, finalization_error, precondition_failure, add_effects, check_forced_transfer,
}
use casper_labs.Execution.Reduce.{at}

module _ {E X V : Type 0} (same : StoredValue V → StoredValue V → Bool)
    (read : Key → Result E (Option (StoredValue V))) where
  abbrev pub all_set :
      ExecutionResult X V → ExecutionResult X V → ExecutionResult X V → ExecutionResultBuilder X V
  all_set p s f = record {
    payment_execution_result = some p;
    session_execution_result = some s;
    finalize_execution_result = some f;
  }

  -- The effects of all parts, those of a failed session left out.
  abbrev pub settled :
      ExecutionResult X V → ExecutionResult X V → ExecutionResult X V → ExecutionEffect V
  settled p (success e _) f =
      add_effects (add_effects (add_effects no_effect (effect p)) e) (effect f)
  settled p (failure _ _ _) f = add_effects (add_effects no_effect (effect p)) (effect f)

  -- What a deploy comes to, for a key `k` that holds `v`.
  abbrev pub Outcome :
      (p s f : ExecutionResult X V) → Key → StoredValue V → ExecutionResult X V → Type 0
  Outcome p s f k v r =
      ((is_failure p ≡ true) × (r ≡ p))
      ⊎ (((is_failure p ≡ false)
            × (is_failure f ≡ true)
            × (r ≡ precondition_failure finalization_error))
          ⊎ ((is_failure p ≡ false)
              × (is_failure f ≡ false)
              × (cost r ≡ cost p + cost s)
              × (is_failure r ≡ is_failure s)
              × (at same read k (effect r) v ≡ at same read k (settled p s f) v)))

-- The session runs, as no forced transfer is called for, exactly when the payment code succeeded and
-- the payment purse holds ten times its cost, for a purse that holds at most what fits 512 bits.
pub check_forced_transfer-exact :
    {X V : Type 0} (balance : ℕ) (r : ExecutionResult X V)
    → balance ≤ u512_max
    → (check_forced_transfer balance r ≡ none) ↔ ((is_failure r ≡ false) × (cost r * 10 ≤ balance))
unfolding check_forced_transfer
check_forced_transfer-exact balance (failure x e c) fits = ground arith
check_forced_transfer-exact balance (success e c) fits = ground arith
