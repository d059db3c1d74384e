-- ===== src/Pos/Contract/Accounts.antt =====
-- What the queue operations of execution-engine/proof-of-stake/src/lib.rs (`internal::bond`,
-- `internal::unbond` and `internal::step`) do to the stakes and the queues, in motes.
use casper_labs.Base.{
  ℕ, ◌+◌, ◌-◌, ◌≡◌, refl, ◌∙◌, Bool-cases, Result-cases, inl, inr, true, Option, [], ◌∷◌, Result,
  ok, err, arith, if◌then◌else◌,
}
use casper_labs.BtreeMap.{keys, IsAscending}
use casper_labs.Pos.Error.{Error}
use casper_labs.Pos.Stakes
use casper_labs.Pos.Stakes.{Stakes, Validator, validate_bonding}
use casper_labs.Pos.Stakes.Bonding.{staked, bond-adds, unbond-Unbonded}
use casper_labs.Pos.Queue.{Queue, push, pop_due}
use casper_labs.Pos.Queue.Order.{amounts, amounts-append, amounts-pop_due}
use casper_labs.Pos.World.{World, stored_stakes}
use casper_labs.Pos.Contract.{
  bond_entries, enqueue_bond, enqueue_unbond, step_queues, apply_bonds, is_empty, unbond_delay,
  bond_delay,
}

-- The stakes that are written, or none.
abbrev pub stakes_in : Result Error Stakes → Stakes
stakes_in (ok m) = m
stakes_in (err _) = []

-- The stakes are a map: their validators are in order.
abbrev pub IsMap : {M : Type 0} → World M → Type 0
IsMap w = IsAscending (keys (stakes_in w.stakes))

-- All that the contract owes: what is staked, what waits to be staked, and what waits to be paid.
abbrev pub liabilities : {M : Type 0} → World M → ℕ
liabilities w = staked (stakes_in w.stakes) + amounts w.bonding + amounts w.unbonding

pub stakes_in-stored : (m : Stakes) → stakes_in (stored_stakes m) ≡ m
stakes_in-stored [] = refl
stakes_in-stored (e ∷ m) = refl

pub bond_entries-adds :
    (q : Queue) (m m' : Stakes)
    → IsAscending (keys m)
    → bond_entries q m ≡ ok m'
    → IsAscending (keys m') × (staked m' ≡ staked m + amounts q)
unfolding bond_entries
bond_entries-adds [] m m' s e = ground arith
bond_entries-adds (x ∷ q) m m' s e = elim (Result-cases (Stakes.bond x.validator x.amount m)) [
  | inl (n, eq) ↦
      let added = bond-adds x.validator x.amount m n s eq in
      let rest = bond_entries-adds q n m' added.0 (rw eq at e) in (rest.0, omega arith)
  | inr (t, eq) ↦ absurd (ground arith)
]

push-ok :
    (v : Validator) (a t : ℕ) (q : Queue)
    → (push v a t q).1 ≡ ok tt
    → amounts (push v a t q).0 ≡ amounts q + a
unfolding push
push-ok v a t q e =
    ground (arith, amounts-append q (record { validator = v; amount = a; timestamp = t } ∷ []))

-- The world `w'` differs from `w` in the queues and the stakes alone.
pub record SameElsewhere {M : Type 0} (w w' : World M) : Type 0 where
  pub named_keys : w'.named_keys ≡ w.named_keys
  pub mint : w'.mint ≡ w.mint

module _ {M : Type 0} (w : World M) where
  -- A request to bond that is accepted is entered in the bonding queue and changes nothing else.
  pub enqueue_bond-ok :
      (amount : ℕ) (v : Validator) (t : ℕ)
      → (enqueue_bond amount v t w).1 ≡ ok tt
      → ((enqueue_bond amount v t w).0 ≡ record w { bonding = (push v amount t w.bonding).0 })
        × ((push v amount t w.bonding).1 ≡ ok tt)
  unfolding enqueue_bond
  enqueue_bond-ok amount v t e = ground arith

  pub enqueue_unbond-ok :
      (o : Option ℕ) (v : Validator) (t : ℕ)
      → (enqueue_unbond o v t w).1 ≡ ok tt
      → (m : Stakes) × (p : ℕ) × (w.stakes ≡ ok m)
        × ((Stakes.unbond v o m).1 ≡ ok p)
        × ((push v p t w.unbonding).1 ≡ ok tt)
        × ((enqueue_unbond o v t w).0 ≡ record w {
          stakes = stored_stakes (Stakes.unbond v o m).0;
          unbonding = (push v p t w.unbonding).0;
        })
  unfolding enqueue_unbond
  enqueue_unbond-ok o v t e = elim (Result-cases w.stakes) [
    | inr (x, missing) ↦ absurd (ground arith)
    | inl (m, found) ↦ elim (Result-cases (Stakes.unbond v o m).1) [
      | inr (x, refused) ↦ absurd (ground arith)
      | inl (p, paid) ↦ (m, p, found, paid, ground arith, ground arith)
    ]
  ]

  pub enqueue_bond-liabilities :
      (amount : ℕ) (v : Validator) (t : ℕ)
      → IsMap w
      → (enqueue_bond amount v t w).1 ≡ ok tt
      → let w' = (enqueue_bond amount v t w).0 in
        IsMap w' × (liabilities w' ≡ liabilities w + amount) × SameElsewhere w w'
  enqueue_bond-liabilities amount v t s e =
      let (eq, pushed) = enqueue_bond-ok amount v t e in
      rw eq (
        s,
        omega (arith, push-ok v amount t w.bonding pushed),
        record { named_keys = refl; mint = refl },
      )

  pub enqueue_unbond-liabilities :
      (o : Option ℕ) (v : Validator) (t : ℕ)
      → IsMap w
      → (enqueue_unbond o v t w).1 ≡ ok tt
      → let w' = (enqueue_unbond o v t w).0 in
        IsMap w' × (liabilities w' ≡ liabilities w) × SameElsewhere w w'
  enqueue_unbond-liabilities o v t s e =
      let (m, p, found, paid, pushed, eq) = enqueue_unbond-ok o v t e in
      let taken = unbond-Unbonded v o m p (ground (arith, found)) paid in
      rw (eq, stakes_in-stored (Stakes.unbond v o m).0)
        (
          taken.0,
          rw found (omega (arith, push-ok v p t w.unbonding pushed, taken.2)),
          record { named_keys = refl; mint = refl },
        )

amounts-is_empty : (q : Queue) → is_empty q ≡ true → amounts q ≡ 0
amounts-is_empty [] h = refl
amounts-is_empty (e ∷ q) h = cc

module _ {M : Type 0} where
  apply_bonds-liabilities :
      (rest due : Queue) (w : World M)
      → IsMap w
      → amounts due + amounts rest ≡ amounts w.bonding
      → (apply_bonds rest due w).1 ≡ ok tt
      → let w' = (apply_bonds rest due w).0 in
        IsMap w' × (liabilities w' ≡ liabilities w) × SameElsewhere w w'
  unfolding apply_bonds
  apply_bonds-liabilities rest [] w s a e = (s, refl, record { named_keys = refl; mint = refl })
  apply_bonds-liabilities rest (x ∷ due) w s a e = elim (Result-cases w.stakes) [
    | inr (y, missing) ↦ absurd (ground arith)
    | inl (m, found) ↦ elim (Result-cases (bond_entries (x ∷ due) m)) [
      | inr (y, refused) ↦ absurd (ground arith)
      | inl (m', bonded) ↦
          let added = bond_entries-adds (x ∷ due) m m' (ground arith) bonded in
          rw (found, bonded, stakes_in-stored m')
            (added.0, omega (arith, added.1), record { named_keys = refl; mint = refl })
    ]
  ]

  -- The world in which the requests to unbond that are due are taken out of their queue.
  take_unbonds : ℕ → World M → World M
  take_unbonds t w =
      if is_empty (pop_due t w.unbonding).1
      then w
      else record w { unbonding = (pop_due t w.unbonding).0 }

  take_unbonds-liabilities :
      (t : ℕ) (w : World M)
      → IsMap w
      → let w' = take_unbonds t w in
        IsMap w'
        × (liabilities w' + amounts (pop_due t w.unbonding).1 ≡ liabilities w)
        × SameElsewhere w w'
        × (w'.bonding ≡ w.bonding)
  unfolding take_unbonds
  take_unbonds-liabilities t w s = elim (Bool-cases (is_empty (pop_due t w.unbonding).1)) [
    | inl nothing ↦ rw nothing (
      s,
      omega (arith, amounts-is_empty (pop_due t w.unbonding).1 nothing),
      record { named_keys = refl; mint = refl },
      refl,
    )
    | inr some_due ↦ rw some_due (
      s,
      omega (arith, amounts-pop_due t w.unbonding),
      record { named_keys = refl; mint = refl },
      refl,
    )
  ]

  step_queues-ok :
      (t : ℕ) (w : World M) (due : Queue)
      → (step_queues t w).1 ≡ ok due
      → let w1 = take_unbonds (t - unbond_delay) w in
        let (rest, bonds) = pop_due (t - bond_delay) w.bonding in
        ((step_queues t w).0 ≡ (apply_bonds rest bonds w1).0)
        × (due ≡ (pop_due (t - unbond_delay) w.unbonding).1)
        × ((apply_bonds rest bonds w1).1 ≡ ok tt)
  unfolding step_queues take_unbonds
  step_queues-ok t w due e = ground arith

  -- A step pays nothing out of its own: what it returns is what the contract owes less than before.
  pub step_queues-liabilities :
      (t : ℕ) (w : World M) (due : Queue)
      → IsMap w
      → (step_queues t w).1 ≡ ok due
      → let w' = (step_queues t w).0 in
        IsMap w' × (liabilities w' + amounts due ≡ liabilities w) × SameElsewhere w w'
  step_queues-liabilities t w due s e =
      let taken = take_unbonds-liabilities (t - unbond_delay) w s in
      let w1 = take_unbonds (t - unbond_delay) w in
      let (rest, bonds) = pop_due (t - bond_delay) w.bonding in
      let (world, paid, applied) = step_queues-ok t w due e in
      let after =
        apply_bonds-liabilities rest bonds w1 taken.0
          (rw (taken.3) (amounts-pop_due (t - bond_delay) w.bonding)) applied in
      rw (world, paid)
        (
          after.0,
          omega (arith, after.1, taken.1),
          record {
            named_keys = after.2.named_keys ∙ taken.2.named_keys;
            mint = after.2.mint ∙ taken.2.mint;
          },
        )
