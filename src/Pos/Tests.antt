-- ===== src/Pos/Tests.antt =====
-- The proof-of-stake contract over the mint in memory, at concrete inputs.
use text.Mathlib.Text.{◌==◌ as str_eq}
use casper_labs.Base.{
  ℕ, ◌+◌, ◌≡◌, refl, Option, none, some, [], ◌∷◌, ◌++◌, ok, err, arith, ◌==◌, if◌then◌else◌,
}
use casper_labs.BtreeMap.{get, keys, IsAscending}
use casper_labs.Types.{Key, uref}
use casper_labs.Pos.Error.{failed, unbond_too_large}
use casper_labs.Pos.Stakes
use casper_labs.Pos.Stakes.{Stakes}
use casper_labs.Pos.Stakes.Bonding.{staked, stake_of, Unbonded, bond-adds, unbond-Unbonded}
use casper_labs.Pos.Queue
use casper_labs.Pos.Queue.{Queue, QueueEntry, pop_due}
use casper_labs.Pos.Queue.Order.{PushOutcome, Due, NotDue, pop_due_splits, push-branches}
use casper_labs.Pos.World.{World, Phase}
use casper_labs.Pos.Contract.{distribute, give_refund, bond, finalize_payment, refund_purse_key}
use casper_labs.Pos.Contract.Solvency.{held}
use casper_labs.Pos.Contract.Finalize.{finalize_payment-empties}
use casper_labs.Pos.Contract.SelfRefund.{finalize_payment-keeps_refund}
use casper_labs.Pos.Bank.{Bank, bank, purse_at, bank-IsSpent, bank-IsIdle}

abbrev two_stakes : Stakes
two_stakes = (5, 60) ∷ (6, 40) ∷ []

abbrev raised : Stakes
raised = (5, 60) ∷ (6, 45) ∷ []

abbrev three_requests : Queue
three_requests =
    record { validator = 5; amount = 1; timestamp = 10 }
    ∷ record { validator = 6; amount = 2; timestamp = 20 }
    ∷ record { validator = 7; amount = 3; timestamp = 30 }
    ∷ []

-- Purses 1, 2 and 3 are for bonds, payments and rewards; `refund` is the refund purse.
abbrev world : Option Key → Phase → World Bank
world refund p = record {
  bonding = [];
  unbonding = [];
  stakes = ok two_stakes;
  named_keys = λ n.
      if str_eq n "pos_bonding_purse"
      then some (uref (purse_at 1))
      else if str_eq n "pos_payment_purse"
      then some (uref (purse_at 2))
      else if str_eq n "pos_rewards_purse"
      then some (uref (purse_at 3))
      else if str_eq n "pos_refund_purse"
      then refund
      else none;
  phase = p;
  block_time = 0;
  caller = 0;
  mint = λ a. if a == 1 then 100 else if a == 2 then 50 else if a == 9 then 45 else 0;
}

-- More than the stake is asked for, and refused.
unbond_above_stake : (Stakes.unbond 6 (some 41) two_stakes).1 ≡ err (failed unbond_too_large)
unfolding Stakes.unbond Stakes.sum_stakes Stakes.max_without
unbond_above_stake = refl

bond-adds_example :
    IsAscending (keys raised)
    × (staked raised ≡ staked two_stakes + 5)
    × ((j : ℕ)
        → get j raised
          ≡ (if j == 6 then some (stake_of (get 6 two_stakes) + 5) else get j two_stakes))
unfolding Stakes.bond
bond-adds_example = bond-adds 6 5 two_stakes raised (omega arith) refl

unbond-Unbonded_example : Unbonded 6 40 two_stakes (Stakes.unbond 6 none two_stakes).0
unfolding Stakes.unbond Stakes.sum_stakes Stakes.max_without
unbond-Unbonded_example = unbond-Unbonded 6 none two_stakes 40 (omega arith) refl

pop_due_splits_example :
    let (rest, due) = pop_due 20 three_requests in
    (due ++ rest ≡ three_requests) × Due 20 due × NotDue 20 rest
pop_due_splits_example = pop_due_splits 20 three_requests (omega arith)

push-branches_example : PushOutcome 8 4 30 three_requests
push-branches_example = push-branches 8 4 30 three_requests (omega arith)

finalize_payment-empties_example :
    let w' =
      (finalize_payment bank 30 5 (world (some (uref (purse_at 4))) Phase.finalize_payment)).0 in
    (held bank (purse_at 2) w'.mint ≡ 0) × (w'.named_keys refund_purse_key ≡ none)
unfolding bank finalize_payment distribute give_refund
finalize_payment-empties_example =
    finalize_payment-empties bank (purse_at 2) (purse_at 3) (some (purse_at 4)) 30 5
      (world (some (uref (purse_at 4))) Phase.finalize_payment) bank-IsSpent refl refl refl
      (omega arith) (omega arith) refl

finalize_payment-keeps_refund_example :
    held bank
        (purse_at 2)
        (finalize_payment bank 30 5
          (world (some (uref (purse_at 2))) Phase.finalize_payment)).0.mint
      + 30
    ≡ held bank (purse_at 2) (world none Phase.finalize_payment).mint
unfolding bank finalize_payment distribute give_refund
finalize_payment-keeps_refund_example =
    finalize_payment-keeps_refund bank (purse_at 2) (purse_at 3) (purse_at 2) 30 5
      (world (some (uref (purse_at 2))) Phase.finalize_payment) bank-IsSpent bank-IsIdle refl refl
      refl (omega arith) refl refl
