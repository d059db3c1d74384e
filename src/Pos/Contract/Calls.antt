-- ===== src/Pos/Contract/Calls.antt =====
-- Bonding, unbonding and stepping in the contract of execution-engine/proof-of-stake/src/lib.rs.
use casper_labs.Base.{
  ℕ, ◌≡◌, ◌≢◌, sym, ap, ◌∙◌, Result-cases, inl, inr, true, Option, ⊤, Result, ok, arith,
}
use casper_labs.Types.{URef, PurseId}
use casper_labs.Pos.Error.{Error, Trap, bond_transfer_failed, unbond_transfer_failed}
use casper_labs.Pos.Stakes.{Validator}
use casper_labs.Pos.Queue.{Queue}
use casper_labs.Pos.World.{World, MintProvider}
use casper_labs.Pos.Contract.{
  bonding_purse, enqueue_bond, enqueue_unbond, step_queues, pay_all, pay_what_can_be_paid, bond,
  unbond, step,
}
use casper_labs.Pos.Contract.Accounts.{
  SameElsewhere, enqueue_bond-liabilities, enqueue_unbond-liabilities, step_queues-liabilities,
}
use casper_labs.Pos.Contract.Solvency.{
  held, IsKept, IsSolvent, pay_all-held, pay_what_can_be_paid-held,
}

module _ {M : Type 0} (mint : MintProvider M) (purse : PurseId) (k : IsKept mint purse) where
  -- The parts of a successful bond, unbond and step.
  bond-parts :
      (v : Validator) (a : ℕ) (source : URef) (w : World M)
      → bonding_purse w ≡ ok purse
      → (bond mint v a source w).1 ≡ ok tt
      → let (m, done) = mint.transfer_from_purse_to_purse source purse a w.mint in
        let w1 : World M = record w { mint = m } in
        let (w2, entered) = enqueue_bond a v w.block_time w1 in
        (due : Queue) × (done ≡ true)
        × (entered ≡ ok tt)
        × ((step_queues w.block_time w2).1 ≡ ok due)
        × (bond mint v a source w
            ≡ pay_all mint bond_transfer_failed purse due (step_queues w.block_time w2).0)
  unfolding bond
  bond-parts v a source w named e =
      let (m, done) = mint.transfer_from_purse_to_purse source purse a w.mint in
      let w1 : World M = record w { mint = m } in
      let (w2, entered) = enqueue_bond a v w.block_time w1 in
      elim (Result-cases (step_queues w.block_time w2).1) [
        | inr (x, refused) ↦ absurd (ground arith)
        | inl (due, stepped) ↦ (due, ground arith, ground arith, stepped, ground arith)
      ]

  unbond-parts :
      (v : Validator) (o : Option ℕ) (w : World M)
      → bonding_purse w ≡ ok purse
      → (unbond mint v o w).1 ≡ ok tt
      → let (w2, entered) = enqueue_unbond o v w.block_time w in
        (due : Queue) × (entered ≡ ok tt)
        × ((step_queues w.block_time w2).1 ≡ ok due)
        × (unbond mint v o w
            ≡ pay_all mint unbond_transfer_failed purse due (step_queues w.block_time w2).0)
  unfolding unbond
  unbond-parts v o w named e =
      let (w2, entered) = enqueue_unbond o v w.block_time w in
      elim (Result-cases (step_queues w.block_time w2).1) [
        | inr (x, refused) ↦ absurd (ground arith)
        | inl (due, stepped) ↦ (due, ground arith, stepped, ground arith)
      ]

  step-parts :
      (w : World M)
      → bonding_purse w ≡ ok purse
      → (step mint w).1 ≡ ok tt
      → (due : Queue) × ((step_queues w.block_time w).1 ≡ ok due)
        × (step mint w ≡ pay_what_can_be_paid mint purse due (step_queues w.block_time w).0)
  unfolding step
  step-parts w named e = elim (Result-cases (step_queues w.block_time w).1) [
    | inr (x, refused) ↦ absurd (ground arith)
    | inl (due, stepped) ↦ (due, stepped, ground arith)
  ]

  named_elsewhere :
      (w w' : World M)
      → SameElsewhere w w'
      → bonding_purse w ≡ ok purse
      → bonding_purse w' ≡ ok purse
  named_elsewhere w w' same named = rw (same.named_keys) named

  -- The end of a bond or an unbond: a step, and a payment of all that is due.
  settle-IsSolvent :
      (error : Error) (t : ℕ) (due : Queue) (w : World M)
      → IsSolvent mint purse w
      → (step_queues t w).1 ≡ ok due
      → (pay_all mint error purse due (step_queues t w).0).1 ≡ ok tt
      → IsSolvent mint purse (pay_all mint error purse due (step_queues t w).0).0
  settle-IsSolvent error t due w h stepped paid =
      let w' = (step_queues t w).0 in
      let (map', owed, same) = step_queues-liabilities t w due h.is_map stepped in
      let (m, world, left) = pay_all-held mint purse k error due w' paid in
      rw world (record {
        is_map = map';
        named = named_elsewhere w w' same h.named;
        covered = omega (arith, left, owed, h.covered, ap (held mint purse) same.mint);
      })

  -- A successful bond, from another purse than the contract's own, keeps the contract solvent.
  pub bond-IsSolvent :
      (v : Validator) (a : ℕ) (source : URef) (w : World M)
      → IsSolvent mint purse w
      → source.addr ≢ purse.addr
      → (bond mint v a source w).1 ≡ ok tt
      → IsSolvent mint purse (bond mint v a source w).0
  bond-IsSolvent v a source w h apart e =
      let (m, done) = mint.transfer_from_purse_to_purse source purse a w.mint in
      let w1 : World M = record w { mint = m } in
      let w2 = (enqueue_bond a v w.block_time w1).0 in
      let (due, sent, entered, stepped, world) = bond-parts v a source w h.named e in
      let (map', owed, same) = enqueue_bond-liabilities w1 a v w.block_time h.is_map entered in
      rw world (
        settle-IsSolvent bond_transfer_failed w.block_time due w2
          (record {
            is_map = map';
            named = named_elsewhere w1 w2 same h.named;
            covered = omega (
              arith,
              owed,
              h.covered,
              k.receives source a w.mint apart sent,
              ap (held mint purse) same.mint,
            );
          })
          stepped (ap (λ (r : World M × Result Trap ⊤). r.1) (sym world) ∙ e))

  -- A successful unbond keeps the contract solvent.
  pub unbond-IsSolvent :
      (v : Validator) (o : Option ℕ) (w : World M)
      → IsSolvent mint purse w
      → (unbond mint v o w).1 ≡ ok tt
      → IsSolvent mint purse (unbond mint v o w).0
  unbond-IsSolvent v o w h e =
      let w2 = (enqueue_unbond o v w.block_time w).0 in
      let (due, entered, stepped, world) = unbond-parts v o w h.named e in
      let (map', owed, same) = enqueue_unbond-liabilities w o v w.block_time h.is_map entered in
      rw world (
        settle-IsSolvent unbond_transfer_failed w.block_time due w2
          (record {
            is_map = map';
            named = named_elsewhere w w2 same h.named;
            covered = omega (arith, owed, h.covered, ap (held mint purse) same.mint);
          })
          stepped (ap (λ (r : World M × Result Trap ⊤). r.1) (sym world) ∙ e))

  -- A successful step keeps the contract solvent, also where payments are refused: what is not paid
  -- out stays in the purse.
  pub step-IsSolvent :
      (w : World M)
      → IsSolvent mint purse w
      → (step mint w).1 ≡ ok tt
      → IsSolvent mint purse (step mint w).0
  step-IsSolvent w h e =
      let w' = (step_queues w.block_time w).0 in
      let (due, stepped, world) = step-parts w h.named e in
      let (map', owed, same) = step_queues-liabilities w.block_time w due h.is_map stepped in
      let (m, paid, left) = pay_what_can_be_paid-held mint purse k due w' in
      rw (world, paid)
        (record {
          is_map = map';
          named = named_elsewhere w w' same h.named;
          covered = omega (arith, left, owed, h.covered, ap (held mint purse) same.mint);
        })
