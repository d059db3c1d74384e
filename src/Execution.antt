-- ===== src/Execution.antt =====
-- What the execution of a deploy comes to:
-- execution-engine/engine-core/src/engine_state/{execution_result,execution_effect}.rs, with the
-- conversions of execution-engine/engine-shared/src/{gas,motes}.rs. Of the engine's errors only
-- `FinalizationError` is told apart; correlation ids are left out.
pub mod Reduce
pub mod Branches
mod Tests
use casper_labs.Base.{
  ℕ, ◌+◌, ◌-◌, ◌/◌, Option, none, some, Bool, true, false, ◌&&◌, List, [], ◌∷◌, Result, ok, err,
  ltb, leb, ◌==◌, if◌then◌else◌,
}
use casper_labs.Types.{Key, normalize, checked_add_u512, checked_mul_u512}
use casper_labs.KeyMap.{KeyMap, find, put, without, insert_add, value_or}
use casper_labs.Values.{u512, ClValue, number, StoredValue, cl_value}
use casper_labs.Transform.{Transform, identity, write, add_uint512, combine}
use casper_labs.TrackingCopy.{Op, add_op}

abbrev pub conv_rate : ℕ
conv_rate = 10

-- `Motes::from_gas` and `Gas::from_motes`
abbrev pub from_gas : ℕ → ℕ → Option ℕ
from_gas gas rate = checked_mul_u512 gas rate

abbrev pub from_motes : ℕ → ℕ → Option ℕ
from_motes motes rate = if rate == 0 then none else some (motes / rate)

pub record ExecutionEffect (V : Type 0) : Type 0 where
  pub ops : KeyMap Op
  pub transforms : KeyMap (Transform V)

-- `X` is the type of the engine's other errors.
pub data EngineError (X : Type 0) : Type 0 where
  finalization_error : EngineError X
  other_error : X → EngineError X

pub data ExecutionResult (X V : Type 0) : Type 0 where
  failure : EngineError X → ExecutionEffect V → ℕ → ExecutionResult X V
  success : ExecutionEffect V → ℕ → ExecutionResult X V

pub data ForcedTransferResult : Type 0 where
  insufficient_payment payment_failure : ForcedTransferResult

pub data ExecutionResultBuilderError : Type 0 where
  missing_payment_execution_result missing_session_execution_result : ExecutionResultBuilderError
  missing_finalize_execution_result : ExecutionResultBuilderError

pub record ExecutionResultBuilder (X V : Type 0) : Type 0 where
  pub payment_execution_result : Option (ExecutionResult X V)
  pub session_execution_result : Option (ExecutionResult X V)
  pub finalize_execution_result : Option (ExecutionResult X V)

abbrev pub no_effect : {V : Type 0} → ExecutionEffect V
no_effect = record { ops = []; transforms = [] }

module _ {X V : Type 0} where
  abbrev pub precondition_failure : EngineError X → ExecutionResult X V
  precondition_failure error = failure error no_effect 0

  abbrev pub is_failure : ExecutionResult X V → Bool
  is_failure (failure _ _ _) = true
  is_failure (success _ _) = false

  abbrev pub cost : ExecutionResult X V → ℕ
  cost (failure _ _ c) = c
  cost (success _ c) = c

  abbrev pub effect : ExecutionResult X V → ExecutionEffect V
  effect (failure _ e _) = e
  effect (success e _) = e

  abbrev pub with_cost : ℕ → ExecutionResult X V → ExecutionResult X V
  with_cost c (failure error e _) = failure error e c
  with_cost c (success e _) = success e c

  abbrev pub with_effect : ExecutionEffect V → ExecutionResult X V → ExecutionResult X V
  with_effect e (failure error _ c) = failure error e c
  with_effect e (success _ c) = success e c

  abbrev forced_transfer : Bool → ExecutionResult X V → Option ForcedTransferResult
  forced_transfer true (success _ _) = some insufficient_payment
  forced_transfer false (success _ _) = none
  forced_transfer _ (failure _ _ _) = some payment_failure

  pub check_forced_transfer : ℕ → ExecutionResult X V → Option ForcedTransferResult
  check_forced_transfer payment_purse_balance r = elim (from_gas (cost r) conv_rate) [
    | none ↦ some insufficient_payment
    | some c ↦ forced_transfer (ltb payment_purse_balance c) r
  ]

  abbrev pub cost_of : Option (ExecutionResult X V) → ℕ
  cost_of none = 0
  cost_of (some r) = cost r

  -- `none` is the panic of an addition of `U512`.
  abbrev pub total_cost : ExecutionResultBuilder X V → Option ℕ
  total_cost b =
      checked_add_u512 (cost_of b.payment_execution_result) (cost_of b.session_execution_result)

pub add_all : {A : Type 0} → (A → A → A) → A → KeyMap A → KeyMap A → KeyMap A
unfolding insert_add
add_all plus default [] m = m
add_all plus default ((k, a) ∷ more) m = add_all plus default more (insert_add plus default k a m)

pub add_effects : {V : Type 0} → ExecutionEffect V → ExecutionEffect V → ExecutionEffect V
unfolding add_all
add_effects e more = record {
  ops = add_all add_op Op.no_op more.ops e.ops;
  transforms = add_all combine identity more.transforms e.transforms;
}

-- `same` is the equality of stored values; `read` is the reader of the state before the deploy.
module _ {E V : Type 0} (same : StoredValue V → StoredValue V → Bool)
    (read : Key → Result E (Option (StoredValue V))) where
  abbrev pub written_over : Key → Option (Transform V) → Option (StoredValue V)
  written_over k (some (write _)) = elim (read k) [ ok found ↦ found | err _ ↦ none ]
  written_over k _ = none

  -- `kvs`
  pub overwritten : KeyMap (Transform V) → KeyMap (Transform V) → KeyMap (StoredValue V)
  unfolding find
  overwritten all [] = []
  overwritten all ((k, t) ∷ m) =
      let rest = overwritten all m in
      elim (written_over k (find k all)) [ some v ↦ (k, v) ∷ rest | none ↦ rest ]

  pub put_back : Key → StoredValue V → Option (Transform V) → ExecutionEffect V → ExecutionEffect V
  unfolding put
  put_back k old_value (some (write new_value)) e =
      if same new_value old_value
      then record e { ops = put k Op.read e.ops; transforms = put k identity e.transforms }
      else record e { transforms = put k (write new_value) e.transforms }
  put_back k old_value _ e = e

  pub reduce_one : Key → StoredValue V → ExecutionEffect V → ExecutionEffect V
  unfolding find without put_back
  reduce_one k old_value e =
      put_back k old_value (find k e.transforms) (record e { transforms = without k e.transforms })

  pub reduce_all : KeyMap (StoredValue V) → ExecutionEffect V → ExecutionEffect V
  unfolding reduce_one
  reduce_all [] e = e
  reduce_all ((k, v) ∷ kvs) e = reduce_all kvs (reduce_one k v e)

  pub reduce_identity_writes : ExecutionEffect V → ExecutionEffect V
  unfolding reduce_all overwritten
  reduce_identity_writes e = reduce_all (overwritten e.transforms e.transforms) e

  module _ {X : Type 0} where
    -- The last part of `build`, with the effects so far and the result to return.
    pub build_finalize :
        Option (ExecutionResult X V)
        → ExecutionResult X V
        → ExecutionEffect V
        → Result ExecutionResultBuilderError (ExecutionResult X V)
    unfolding add_effects reduce_identity_writes
    build_finalize none ret e = err missing_finalize_execution_result
    build_finalize (some r) ret e =
        if is_failure r
        then ok (precondition_failure finalization_error)
        else ok (with_effect (reduce_identity_writes (add_effects e (effect r))) ret)

    pub build_session :
        ℕ
        → ExecutionResultBuilder X V
        → ExecutionEffect V
        → Result ExecutionResultBuilderError (ExecutionResult X V)
    unfolding add_effects build_finalize
    build_session total b e = elim b.session_execution_result [
      | none ↦ err missing_session_execution_result
      | some r ↦
          if is_failure r
          then build_finalize b.finalize_execution_result (with_cost total r) e
          else build_finalize b.finalize_execution_result (success no_effect total)
              (add_effects e (effect r))
    ]

    pub build_payment :
        ℕ → ExecutionResultBuilder X V → Result ExecutionResultBuilderError (ExecutionResult X V)
    unfolding add_effects build_session
    build_payment total b = elim b.payment_execution_result [
      | none ↦ err missing_payment_execution_result
      | some r ↦
          if is_failure r then ok r else build_session total b (add_effects no_effect (effect r))
    ]

    pub build :
        ExecutionResultBuilder X V
        → Option (Result ExecutionResultBuilderError (ExecutionResult X V))
    unfolding build_payment
    build b = elim (total_cost b) [ some total ↦ some (build_payment total b) | none ↦ none ]

-- `none` is the panic of a subtraction of `U512`. `normalize` takes the access rights off a key.
pub make_payment_error_effects : {V : Type 0} → ℕ → ℕ → Key → Key → Option (ExecutionEffect V)
unfolding put
make_payment_error_effects max_payment_cost balance account_main_purse rewards_purse =
    if leb max_payment_cost balance
    then some record {
      ops = put (normalize rewards_purse) Op.add (put (normalize account_main_purse) Op.write []);
      transforms = put (normalize rewards_purse) (add_uint512 max_payment_cost) (
          put (normalize account_main_purse)
            (write (cl_value (number u512 (balance - max_payment_cost)))) []);
    }
    else none

pub new_payment_code_error :
    {X V : Type 0} → EngineError X → ℕ → ℕ → Key → Key → Option (ExecutionResult X V)
unfolding make_payment_error_effects
new_payment_code_error error max_payment_cost balance account_main_purse rewards_purse =
    elim (make_payment_error_effects max_payment_cost balance account_main_purse rewards_purse) [
      | some e ↦ some (failure error e (value_or 0 (from_motes max_payment_cost conv_rate)))
      | none ↦ none
    ]
