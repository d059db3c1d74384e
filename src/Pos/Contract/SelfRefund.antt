-- ===== src/Pos/Contract/SelfRefund.antt =====
-- A deploy that names the payment purse as its refund purse: `set_refund_purse` of
-- execution-engine/proof-of-stake/src/lib.rs takes any purse, and `finalize_payment` transfers to it.
use casper_labs.Base.{
  ℕ, ◌+◌, ◌-◌, ◌≤◌, ◌≡◌, ◌≢◌, refl, sym, ap, ◌∙◌, inl, inr, ◌⊎◌, true, some, ⊤, Result, ok, err,
  arith,
}
use casper_labs.Types.{PurseId, remove_access_rights}
use casper_labs.Pos.Error.{Trap, failed, set_refund_purse_called_outside_payment}
use casper_labs.Pos.Stakes.{Validator}
use casper_labs.Pos.World.{Phase, World, MintProvider, remove_key}
use casper_labs.Pos.Contract.{
  set_refund_purse, get_refund_purse, payment_purse, rewards_purse, refund_purse, refund_purse_key,
  give_refund, finalize_payment,
}
use casper_labs.Pos.Contract.Solvency.{held}
use casper_labs.Pos.Contract.Finalize.{IsSpent, distribute-parts, finalize_payment-parts}

-- What a transfer from a purse to itself does: it succeeds, and leaves the balance as it was.
pub record IsIdle {M : Type 0} (mint : MintProvider M) (purse : PurseId) : Type 0 where
  pub succeeds :
      (target : PurseId) (n : ℕ) (s : M)
      → target.addr ≡ purse.addr
      → n ≤ held mint purse s
      → (mint.transfer_from_purse_to_purse purse target n s).1 ≡ true
  pub same :
      (target : PurseId) (n : ℕ) (s : M)
      → target.addr ≡ purse.addr
      → held mint purse (mint.transfer_from_purse_to_purse purse target n s).0 ≡ held mint purse s

give_refund-idle :
    {M : Type 0} (mint : MintProvider M) (purse refund : PurseId) (account : Validator) (n : ℕ)
    (w : World M)
    → IsIdle mint purse
    → refund.addr ≡ purse.addr
    → n ≤ held mint purse w.mint
    → held mint purse (give_refund mint purse (some refund) account n w).0.mint
      ≡ held mint purse w.mint
unfolding give_refund
give_refund-idle mint purse refund account n w idle own enough =
    ground (arith, idle.succeeds refund n w.mint, idle.same refund n w.mint)

-- Where the refund purse is the payment purse itself, a successful `finalize_payment` leaves in it
-- all that was not spent.
pub finalize_payment-keeps_refund :
    {M : Type 0} (mint : MintProvider M) (purse reward refund : PurseId) (spent : ℕ)
    (account : Validator) (w : World M)
    → IsSpent mint purse
    → IsIdle mint purse
    → payment_purse w ≡ ok purse
    → rewards_purse w ≡ ok reward
    → refund_purse w ≡ ok (some refund)
    → reward.addr ≢ purse.addr
    → refund.addr ≡ purse.addr
    → (finalize_payment mint spent account w).1 ≡ ok tt
    → held mint purse (finalize_payment mint spent account w).0.mint + spent
      ≡ held mint purse w.mint
finalize_payment-keeps_refund {M} mint purse reward refund spent account w k idle p r f away own e =
    let total = held mint purse w.mint in
    let (m, done) = mint.transfer_from_purse_to_purse purse reward spent w.mint in
    let w1 : World M = record (remove_key refund_purse_key w) { mint = m } in
    let (enough, eq) =
      finalize_payment-parts mint purse reward (some refund) spent account w p r f e in
    let (paid, rest) =
      distribute-parts mint purse reward (some refund) spent total account w
        (ap (λ (x : World M × Result Trap ⊤). x.1) (sym eq) ∙ e) in
    elim rest [
      | inl (nothing, eq') ↦ rw (eq, eq') (omega (arith, k.sends reward spent w.mint away paid))
      | inr eq' ↦
          rw (eq, eq')
            (omega (
              arith,
              k.sends reward spent w.mint away paid,
              give_refund-idle mint purse refund account (total - spent) w1 idle own
                  (omega (arith, k.sends reward spent w.mint away paid)),
            ))
    ]

-- In the payment phase any purse can be set as the refund purse, and is then the one that the
-- contract refunds to; a caller who asks for it gets it without access rights. In every other phase
-- nothing is set.
pub refund_purse_set :
    {M : Type 0} (purse : PurseId) (w : World M)
    → ((set_refund_purse purse w).1 ≡ ok tt)
        × (refund_purse (set_refund_purse purse w).0 ≡ ok (some purse))
        × ((get_refund_purse (set_refund_purse purse w).0).1
            ≡ ok (some (remove_access_rights purse)))
      ⊎ (w.phase ≢ Phase.payment)
        × (set_refund_purse purse w ≡ (w, err (failed set_refund_purse_called_outside_payment)))
unfolding set_refund_purse get_refund_purse
refund_purse_set {M} purse w = go w.phase refl
  where
    go :
        (p : Phase)
        → w.phase ≡ p
        → ((set_refund_purse purse w).1 ≡ ok tt)
            × (refund_purse (set_refund_purse purse w).0 ≡ ok (some purse))
            × ((get_refund_purse (set_refund_purse purse w).0).1
                ≡ ok (some (remove_access_rights purse)))
          ⊎ (w.phase ≢ Phase.payment)
            × (set_refund_purse purse w ≡ (w, err (failed set_refund_purse_called_outside_payment)))
    go Phase.payment e = inl (rw e, rw e, rw e)
    go Phase.system e = inr (λ p. cc (p, e), rw e)
    go Phase.session e = inr (λ p. cc (p, e), rw e)
    go Phase.finalize_payment e = inr (λ p. cc (p, e), rw e)
