-- ===== src/Pos/Contract/Finalize.antt =====
-- Paying for a deploy: `finalize_payment` of execution-engine/proof-of-stake/src/lib.rs.
use casper_labs.Base.{
  ℕ, ◌+◌, ◌-◌, ◌≤◌, ◌≡◌, ◌≢◌, refl, sym, ap, ◌∙◌, Bool-cases, Option-cases, inl, inr, ◌⊎◌, true,
  false, Option, none, some, ⊤, Result, ok, arith, ◌==◌,
}
use casper_labs.Types.{PurseId}
use casper_labs.Pos.Error.{Error, Trap}
use casper_labs.Pos.Stakes.{Validator}
use casper_labs.Pos.World.{World, MintProvider, remove_key}
use casper_labs.Pos.Contract.{
  payment_purse, rewards_purse, refund_purse, refund_purse_key, give_refund, distribute,
  finalize_payment,
}
use casper_labs.Pos.Contract.Solvency.{held}

module _ {M : Type 0} (mint : MintProvider M) (purse : PurseId) where
  open mint use {transfer_from_purse_to_account, transfer_from_purse_to_purse, get_balance}

  -- What the contract relies on: a transfer out of the purse to another, or to an account, lowers
  -- its balance by the amount, and one that is refused leaves the balance as it was.
  pub record IsSpent : Type 0 where
    pub sends :
        (target : PurseId) (n : ℕ) (s : M)
        → target.addr ≢ purse.addr
        → (transfer_from_purse_to_purse purse target n s).1 ≡ true
        → held mint purse (transfer_from_purse_to_purse purse target n s).0 + n ≡ held mint purse s
    pub keeps :
        (target : PurseId) (n : ℕ) (s : M)
        → (transfer_from_purse_to_purse purse target n s).1 ≡ false
        → held mint purse (transfer_from_purse_to_purse purse target n s).0 ≡ held mint purse s
    pub pays :
        (v : Validator) (n : ℕ) (s : M)
        → (transfer_from_purse_to_account purse v n s).1 ≡ true
        → held mint purse (transfer_from_purse_to_account purse v n s).0 + n ≡ held mint purse s

  -- The refund purse, where one is set, is another than the payment purse.
  abbrev pub Apart : Result Error (Option PurseId) → Type 0
  Apart (ok (some refund)) = refund.addr ≢ purse.addr
  Apart _ = Unit

module _ {M : Type 0} (mint : MintProvider M) (purse : PurseId) (k : IsSpent mint purse) where
  give_refund-held :
      (refund : Option PurseId) (account : Validator) (n : ℕ) (w : World M)
      → Apart mint purse (ok refund)
      → (give_refund mint purse refund account n w).1 ≡ ok tt
      → held mint purse (give_refund mint purse refund account n w).0.mint + n
        ≡ held mint purse w.mint
  unfolding give_refund
  give_refund-held none account n w a e = ground (arith, k.pays account n w.mint)
  give_refund-held (some r) account n w a e = ground (
    arith,
    k.sends r n w.mint,
    k.keeps r n w.mint,
    k.pays account n w.mint,
    k.pays account n (mint.transfer_from_purse_to_purse purse r n w.mint).0,
  )

module _ {M : Type 0} (mint : MintProvider M) (purse reward : PurseId)
    (refund : Option PurseId) where
  -- A successful call has paid the reward, and then refunds what is left, if anything is.
  pub distribute-parts :
      (spent total : ℕ) (account : Validator) (w : World M)
      → (distribute mint purse reward refund spent total account w).1 ≡ ok tt
      → let (m, done) = mint.transfer_from_purse_to_purse purse reward spent w.mint in
        let w1 : World M = record (remove_key refund_purse_key w) { mint = m } in
        (done ≡ true)
        × ((total - spent ≡ 0)
              × (distribute mint purse reward refund spent total account w ≡ (w1, ok tt))
            ⊎ (distribute mint purse reward refund spent total account w
                ≡ give_refund mint purse refund account (total - spent) w1))
  unfolding distribute
  distribute-parts spent total account w e = elim (Bool-cases ((total - spent) == 0)) [
    | inl nothing ↦ (ground arith, inl (ground arith, ground arith))
    | inr more ↦ (ground arith, inr (ground arith))
  ]

  -- It is made once the caller, the purses and the balance have been found right.
  pub finalize_payment-parts :
      (spent : ℕ) (account : Validator) (w : World M)
      → payment_purse w ≡ ok purse
      → rewards_purse w ≡ ok reward
      → refund_purse w ≡ ok refund
      → (finalize_payment mint spent account w).1 ≡ ok tt
      → (spent ≤ held mint purse w.mint)
        × (finalize_payment mint spent account w
            ≡ distribute mint purse reward refund spent (held mint purse w.mint) account w)
  unfolding finalize_payment
  finalize_payment-parts spent account w p r f e =
      elim (Option-cases (mint.get_balance purse w.mint)) [
        | inl unknown ↦ absurd (ground arith)
        | inr (total, known) ↦ (ground arith, ground arith)
      ]

module _ {M : Type 0} (mint : MintProvider M) (purse : PurseId) where
  give_refund-names :
      (refund : Option PurseId) (account : Validator) (n : ℕ) (w : World M)
      → (give_refund mint purse refund account n w).0.named_keys ≡ w.named_keys
  unfolding give_refund
  give_refund-names none account n w = ground arith
  give_refund-names (some r) account n w = ground arith

module _ {M : Type 0} (mint : MintProvider M) (purse reward : PurseId)
    (refund : Option PurseId) where
  distribute-names :
      (spent total : ℕ) (account : Validator) (w : World M)
      → (distribute mint purse reward refund spent total account w).1 ≡ ok tt
      → (distribute mint purse reward refund spent total account w).0.named_keys refund_purse_key
        ≡ none
  distribute-names spent total account w e =
      let (m, done) = mint.transfer_from_purse_to_purse purse reward spent w.mint in
      let w1 : World M = record (remove_key refund_purse_key w) { mint = m } in
      elim ((distribute-parts mint purse reward refund spent total account w e).1) [
        | inl (nothing, eq) ↦ rw eq
        | inr eq ↦ rw (eq, give_refund-names mint purse refund account (total - spent) w1)
      ]

  distribute-held :
      (spent total : ℕ) (account : Validator) (w : World M)
      → IsSpent mint purse
      → reward.addr ≢ purse.addr
      → Apart mint purse (ok refund)
      → spent ≤ total
      → total ≡ held mint purse w.mint
      → (distribute mint purse reward refund spent total account w).1 ≡ ok tt
      → held mint purse (distribute mint purse reward refund spent total account w).0.mint ≡ 0
  distribute-held spent total account w k away apart enough all e =
      let (m, done) = mint.transfer_from_purse_to_purse purse reward spent w.mint in
      let w1 : World M = record (remove_key refund_purse_key w) { mint = m } in
      let (paid, rest) = distribute-parts mint purse reward refund spent total account w e in
      elim rest [
        | inl (nothing, eq) ↦ rw eq (omega (arith, k.sends reward spent w.mint away paid))
        | inr eq ↦ rw eq (
            omega (
              arith,
              k.sends reward spent w.mint away paid,
              give_refund-held mint purse k refund account (total - spent) w1 apart
                  (ap (λ (r : World M × Result Trap ⊤). r.1) (sym eq) ∙ e),
            ))
      ]

  -- After a successful `finalize_payment` the payment purse is empty and no refund purse is set,
  -- provided that neither the rewards purse nor the refund purse is the payment purse.
  pub finalize_payment-empties :
      (spent : ℕ) (account : Validator) (w : World M)
      → IsSpent mint purse
      → payment_purse w ≡ ok purse
      → rewards_purse w ≡ ok reward
      → refund_purse w ≡ ok refund
      → reward.addr ≢ purse.addr
      → Apart mint purse (ok refund)
      → (finalize_payment mint spent account w).1 ≡ ok tt
      → let w' = (finalize_payment mint spent account w).0 in
        (held mint purse w'.mint ≡ 0) × (w'.named_keys refund_purse_key ≡ none)
  finalize_payment-empties spent account w k p r f away apart e =
      let (enough, eq) = finalize_payment-parts mint purse reward refund spent account w p r f e in
      let total = held mint purse w.mint in
      let e' = ap (λ (r : World M × Result Trap ⊤). r.1) (sym eq) ∙ e in
      rw eq (
        distribute-held spent total account w k away apart enough refl e',
        distribute-names spent total account w e',
      )
