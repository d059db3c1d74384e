-- ===== src/Pos/Contract/Solvency.antt =====
-- The bonding purse of execution-engine/proof-of-stake/src/lib.rs, beside the staked motes and the
-- unbonded motes that are yet to be paid out.
use casper_labs.Base.{
  ℕ, ◌+◌, ◌≤◌, ◌≡◌, ◌≢◌, refl, sym, ap, ◌∙◌, Bool-cases, inl, inr, true, false, Option, none, some,
  [], ◌∷◌, ⊤, Result, ok, arith,
}
use casper_labs.Types.{PurseId}
use casper_labs.Pos.Error.{Error, Trap}
use casper_labs.Pos.Stakes.{Validator}
use casper_labs.Pos.Queue.{Queue}
use casper_labs.Pos.Queue.Order.{amounts}
use casper_labs.Pos.World.{World, MintProvider}
use casper_labs.Pos.Contract.{bonding_purse, pay_all, pay_what_can_be_paid}
use casper_labs.Pos.Contract.Accounts.{IsMap, liabilities}

abbrev pub or_zero : Option ℕ → ℕ
or_zero none = 0
or_zero (some n) = n

module _ {M : Type 0} (mint : MintProvider M) (purse : PurseId) where
  open mint use {transfer_from_purse_to_account, transfer_from_purse_to_purse, get_balance}

  abbrev pub held : M → ℕ
  held s = or_zero (get_balance purse s)

  -- What the contract relies on: a transfer into the purse from another raises its balance by the
  -- amount, a payment to an account lowers it by the amount, and a payment that is refused leaves
  -- it as it was.
  pub record IsKept : Type 0 where
    pub receives :
        (source : PurseId) (n : ℕ) (s : M)
        → source.addr ≢ purse.addr
        → (transfer_from_purse_to_purse source purse n s).1 ≡ true
        → held (transfer_from_purse_to_purse source purse n s).0 ≡ held s + n
    pub pays :
        (v : Validator) (n : ℕ) (s : M)
        → (transfer_from_purse_to_account purse v n s).1 ≡ true
        → held (transfer_from_purse_to_account purse v n s).0 + n ≡ held s
    pub refuses :
        (v : Validator) (n : ℕ) (s : M)
        → (transfer_from_purse_to_account purse v n s).1 ≡ false
        → held (transfer_from_purse_to_account purse v n s).0 ≡ held s

  -- The purse is the contract's bonding purse, the stakes are a map, and the balance of the purse
  -- covers what the contract owes.
  pub record IsSolvent (w : World M) : Type 0 where
    pub is_map : IsMap w
    pub named : bonding_purse w ≡ ok purse
    pub covered : liabilities w ≤ held w.mint

module _ {M : Type 0} (mint : MintProvider M) (purse : PurseId) (k : IsKept mint purse) where
  pub pay_all-held :
      (error : Error) (q : Queue) (w : World M)
      → (pay_all mint error purse q w).1 ≡ ok tt
      → (m : M) × ((pay_all mint error purse q w).0 ≡ record w { mint = m })
        × (held mint purse m + amounts q ≡ held mint purse w.mint)
  unfolding pay_all
  pay_all-held error [] w e = (w.mint, refl, omega arith)
  pay_all-held error (x ∷ q) w e =
      let (m, done) = mint.transfer_from_purse_to_account purse x.validator x.amount w.mint in
      elim (Bool-cases done) [
        | inr refused ↦ absurd (ground arith)
        | inl paid ↦
            let w1 : World M = record w { mint = m } in
            let same : pay_all mint error purse (x ∷ q) w ≡ pay_all mint error purse q w1 =
              ground arith in
            let (m', eq, left) =
              pay_all-held error q w1 (ap (λ (r : World M × Result Trap ⊤). r.1) (sym same) ∙ e) in
            (
              m',
              ap (λ (r : World M × Result Trap ⊤). r.0) same ∙ eq,
              omega (arith, left, k.pays x.validator x.amount w.mint paid),
            )
      ]

  pub pay_what_can_be_paid-held :
      (q : Queue) (w : World M)
      → (m : M) × ((pay_what_can_be_paid mint purse q w).0 ≡ record w { mint = m })
        × (held mint purse w.mint ≤ held mint purse m + amounts q)
  unfolding pay_what_can_be_paid
  pay_what_can_be_paid-held [] w = (w.mint, refl, omega arith)
  pay_what_can_be_paid-held (x ∷ q) w =
      let (m, done) = mint.transfer_from_purse_to_account purse x.validator x.amount w.mint in
      let w1 : World M = record w { mint = m } in
      let (m', eq, left) = pay_what_can_be_paid-held q w1 in
      (
        m',
        eq,
        elim (Bool-cases done) [
          | inr refused ↦ omega (arith, left, k.refuses x.validator x.amount w.mint refused)
          | inl paid ↦ omega (arith, left, k.pays x.validator x.amount w.mint paid)
        ],
      )
