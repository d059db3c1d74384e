-- ===== src/Pos/Contract.antt =====
-- The methods of the contract of execution-engine/proof-of-stake/src/lib.rs.
pub mod Accounts
pub mod Solvency
pub mod Calls
pub mod History
pub mod Finalize
pub mod SelfRefund
use Prim.Native.String.{String}
use casper_labs.Base.{
  ℕ, ◌-◌, ◌<◌, Bool, true, false, not, Option, none, some, List, [], ◌∷◌, ⊤, Result, ok, err,
  map_err, length, ltb, leb, ◌==◌, if◌then◌else◌,
}
use casper_labs.Types.{Key, uref, URef, PurseId, new_uref, remove_access_rights, read_add}
use casper_labs.Pos.Error.{
  Error, PurseLookupError, Trap, key_not_found, key_unexpected_type, bonding, payment, rewards,
  too_many_events_in_queue, bond_too_small, bond_transfer_failed, unbond_transfer_failed,
  refund_purse_key_unexpected_type, set_refund_purse_called_outside_payment,
  system_function_called_by_user_account, payment_purse_balance_not_found,
  insufficient_payment_for_amount_spent, failed_transfer_to_rewards_purse,
  failed_transfer_to_account_purse,
}
use casper_labs.Pos.Stakes
use casper_labs.Pos.Stakes.{Stakes, Validator, validate_bonding}
use casper_labs.Pos.Queue.{Queue, QueueEntry, push, pop_due}
use casper_labs.Pos.World.{
  World, MintProvider, Phase, Call, pure, gets, lift, lift_error, raise, raise_if, modify, on_mint,
  write_bonding, write_unbonding, write_stakes, put_key, remove_key, continue, ◌>>=◌, ◌>>◌,
}
use casper_labs.Base

abbrev pub system_account : Validator
system_account = 0

abbrev pub bonding_purse_key : String
bonding_purse_key = "pos_bonding_purse"

abbrev pub payment_purse_key : String
payment_purse_key = "pos_payment_purse"

abbrev pub rewards_purse_key : String
rewards_purse_key = "pos_rewards_purse"

abbrev pub refund_purse_key : String
refund_purse_key = "pos_refund_purse"

abbrev pub bond_delay : ℕ
bond_delay = 0

abbrev pub unbond_delay : ℕ
unbond_delay = 0

abbrev pub max_bond_len : ℕ
max_bond_len = 100

abbrev pub max_unbond_len : ℕ
max_unbond_len = 1000

abbrev pub is_empty : Queue → Bool
is_empty [] = true
is_empty (_ ∷ _) = false

-- `for entry in … { stakes.bond(&entry.validator, entry.amount); }`
unfoldable pub bond_entries : Queue → Stakes → Result Trap Stakes
bond_entries [] m = ok m
bond_entries (e ∷ q) m = Base.◌>>=◌ (Stakes.bond e.validator e.amount m) (bond_entries q)

abbrev purse_of_key : Option Key → Result PurseLookupError PurseId
purse_of_key (some (uref u)) = ok u
purse_of_key none = err key_not_found
purse_of_key _ = err key_unexpected_type

-- The refund purse may be unset.
abbrev optional_purse : Result PurseLookupError PurseId → Result Error (Option PurseId)
optional_purse (ok purse) = ok (some purse)
optional_purse (err key_not_found) = ok none
optional_purse (err key_unexpected_type) = err refund_purse_key_unexpected_type

module _ {M : Type 0} where
  abbrev pub get_purse_id : String → World M → Result PurseLookupError PurseId
  get_purse_id name w = purse_of_key (w.named_keys name)

  abbrev pub payment_purse : World M → Result Error PurseId
  payment_purse w = map_err payment (get_purse_id payment_purse_key w)

  abbrev pub bonding_purse : World M → Result Error PurseId
  bonding_purse w = map_err bonding (get_purse_id bonding_purse_key w)

  abbrev pub rewards_purse : World M → Result Error PurseId
  rewards_purse w = map_err rewards (get_purse_id rewards_purse_key w)

  abbrev pub refund_purse : World M → Result Error (Option PurseId)
  refund_purse w = optional_purse (get_purse_id refund_purse_key w)

  -- `internal::bond`
  unfoldable pub enqueue_bond : ℕ → Validator → ℕ → Call M ⊤
  unfolding bond_entries
  enqueue_bond amount validator timestamp = do
    queue ← gets (λ w. w.bonding)
    raise_if (leb max_bond_len (length queue)) too_many_events_in_queue
    stakes ← λ w. lift_error w.stakes w
    simulated ← lift (bond_entries queue stakes)
    lift (validate_bonding validator amount simulated)
    let pushed = push validator amount timestamp queue
    lift_error pushed.1
    modify (write_bonding pushed.0)

  -- `internal::unbond`
  unfoldable pub enqueue_unbond : Option ℕ → Validator → ℕ → Call M ⊤
  enqueue_unbond maybe_amount validator timestamp = do
    queue ← gets (λ w. w.unbonding)
    raise_if (leb max_unbond_len (length queue)) too_many_events_in_queue
    stakes ← λ w. lift_error w.stakes w
    let unbonded = Stakes.unbond validator maybe_amount stakes
    payout ← lift unbonded.1
    modify (write_stakes unbonded.0)
    let pushed = push validator payout timestamp queue
    lift_error pushed.1
    modify (write_unbonding pushed.0)

  -- The second half of `internal::step`: the bonds that are due become stakes.
  unfoldable pub apply_bonds : Queue → Queue → Call M ⊤
  unfolding bond_entries
  apply_bonds bonding_queue [] = pure tt
  apply_bonds bonding_queue (e ∷ bonds) = do
    modify (write_bonding bonding_queue)
    stakes ← λ w. lift_error w.stakes w
    bonded ← lift (bond_entries (e ∷ bonds) stakes)
    modify (write_stakes bonded)

  -- `internal::step`
  unfoldable pub step_queues : ℕ → Call M Queue
  step_queues timestamp = do
    bonding_queue ← gets (λ w. w.bonding)
    unbonding_queue ← gets (λ w. w.unbonding)
    let bonds = pop_due (timestamp - bond_delay) bonding_queue
    let unbonds = pop_due (timestamp - unbond_delay) unbonding_queue
    modify (λ w. if is_empty unbonds.1 then w else write_unbonding unbonds.0 w)
    apply_bonds bonds.0 bonds.1
    pure unbonds.1

  unfoldable pub set_refund_purse : PurseId → Call M ⊤
  set_refund_purse purse_id w = elim w.phase [
    | Phase.payment ↦ (put_key refund_purse_key (uref purse_id) w, ok tt)
    | _ ↦ raise set_refund_purse_called_outside_payment w
  ]

  unfoldable pub get_payment_purse : Call M PurseId
  get_payment_purse = do
    purse ← λ w. lift_error (payment_purse w) w
    pure (new_uref purse.addr read_add)

  unfoldable pub get_refund_purse : Call M (Option PurseId)
  get_refund_purse = do
    maybe_purse ← λ w. lift_error (refund_purse w) w
    pure (elim maybe_purse [ some p ↦ some (remove_access_rights p) | none ↦ none ])

module _ {M : Type 0} (mint : MintProvider M) where
  open mint use {transfer_from_purse_to_account, transfer_from_purse_to_purse, get_balance}

  -- `for entry in unbonds { … .map_err(|_| error)?; }`
  unfoldable pub pay_all : Error → PurseId → Queue → Call M ⊤
  pay_all error pos_purse [] = pure tt
  pay_all error pos_purse (e ∷ q) = do
    done ← on_mint (transfer_from_purse_to_account pos_purse e.validator e.amount)
    raise_if (not done) error
    pay_all error pos_purse q

  -- The loop of `step`, which ignores what the transfers return.
  unfoldable pub pay_what_can_be_paid : PurseId → Queue → Call M ⊤
  pay_what_can_be_paid pos_purse [] = pure tt
  pay_what_can_be_paid pos_purse (e ∷ q) = do
    on_mint (transfer_from_purse_to_account pos_purse e.validator e.amount)
    pay_what_can_be_paid pos_purse q

  unfoldable pub bond : Validator → ℕ → URef → Call M ⊤
  bond validator amount source = do
    raise_if (amount == 0) bond_too_small
    pos_purse ← λ w. lift_error (bonding_purse w) w
    timestamp ← gets (λ w. w.block_time)
    done ← on_mint (transfer_from_purse_to_purse source pos_purse amount)
    raise_if (not done) bond_transfer_failed
    enqueue_bond amount validator timestamp
    unbonds ← step_queues timestamp
    pay_all bond_transfer_failed pos_purse unbonds

  unfoldable pub unbond : Validator → Option ℕ → Call M ⊤
  unbond validator maybe_amount = do
    pos_purse ← λ w. lift_error (bonding_purse w) w
    timestamp ← gets (λ w. w.block_time)
    enqueue_unbond maybe_amount validator timestamp
    unbonds ← step_queues timestamp
    pay_all unbond_transfer_failed pos_purse unbonds

  unfoldable pub step : Call M ⊤
  step = do
    pos_purse ← λ w. lift_error (bonding_purse w) w
    timestamp ← gets (λ w. w.block_time)
    unbonds ← step_queues timestamp
    pay_what_can_be_paid pos_purse unbonds

  unfoldable pub refund_to_account : PurseId → Validator → ℕ → Call M ⊤
  refund_to_account purse account amount = do
    done ← on_mint (transfer_from_purse_to_account purse account amount)
    raise_if (not done) failed_transfer_to_account_purse

  -- The end of `finalize_payment`: the refund purse, or else the account, gets what is left.
  unfoldable pub give_refund : PurseId → Option PurseId → Validator → ℕ → Call M ⊤
  unfolding refund_to_account
  give_refund purse none account amount = refund_to_account purse account amount
  give_refund purse (some refund) account amount = do
    done ← on_mint (transfer_from_purse_to_purse purse refund amount)
    if done then pure tt else refund_to_account purse account amount

  -- The second half of `finalize_payment`: the reward is paid, and what is left is given back.
  unfoldable pub distribute : PurseId → PurseId → Option PurseId → ℕ → ℕ → Validator → Call M ⊤
  distribute purse reward refund amount_spent total account = do
    modify (remove_key refund_purse_key)
    done ← on_mint (transfer_from_purse_to_purse purse reward amount_spent)
    raise_if (not done) failed_transfer_to_rewards_purse
    if total - amount_spent == 0
        then pure tt
        else give_refund purse refund account (total - amount_spent)

  unfoldable pub finalize_payment : ℕ → Validator → Call M ⊤
  finalize_payment amount_spent account = do
    caller ← gets (λ w. w.caller)
    raise_if (not (caller == system_account)) system_function_called_by_user_account
    purse ← λ w. lift_error (payment_purse w) w
    balance ← gets (λ w. get_balance purse w.mint)
    total ← lift_error (elim balance [ some b ↦ ok b | none ↦ err payment_purse_balance_not_found ])
    raise_if (ltb total amount_spent) insufficient_payment_for_amount_spent
    reward ← λ w. lift_error (rewards_purse w) w
    refund ← λ w. lift_error (refund_purse w) w
    distribute purse reward refund amount_spent total account
