-- ===== src/Pos/Stakes/Bonding.antt =====
-- What bonding and unbonding do to the stakes (execution-engine/proof-of-stake/src/stakes.rs).
use casper_labs.Base.{
  ltb, ◌⊎◌, ◌/◌, ℕ, ◌+◌, ◌-◌, ◌*◌, ◌≤◌, ◌<◌, ◌≡◌, ◌≢◌, refl, Bool-cases, Option-cases, inl, inr,
  Option, none, some, [], ◌∷◌, ok, err, arith, sum, length, min, if◌then◌else◌, ◌==◌,
}
use casper_labs.BtreeMap.{get, insert, remove, keys, values, IsAscending}
use casper_labs.BtreeMap.Lookup.{get-insert, get-remove_self, get-remove_ne}
use casper_labs.BtreeMap.Order.{insert-IsAscending, remove-IsAscending}
use casper_labs.BtreeMap.Totals.{sum-insert, sum-remove, sum-remove-none}
use casper_labs.Types.{u512_max, checked_mul_u512}
use casper_labs.Pos.Error.{Trap, panicked}
use casper_labs.Pos.Stakes.{
  Stakes, Validator, bond, unbond, unbond_with, unbond_amount, unbond_all, sum_stakes,
  max_rel_decrease, lower_bound, max_decrease,
}

-- All the motes that are staked.
abbrev pub staked : Stakes → ℕ
staked m = sum (values m)

abbrev pub stake_of : Option ℕ → ℕ
stake_of none = 0
stake_of (some s) = s

-- Bonding adds the amount to the validator's stake, and to no other; a validator that was not there
-- is entered. All in all the staked motes grow by the amount, and the map stays in order.
pub bond-adds :
    (v : Validator) (amount : ℕ) (m m' : Stakes)
    → IsAscending (keys m)
    → bond v amount m ≡ ok m'
    → IsAscending (keys m')
      × (staked m' ≡ staked m + amount)
      × ((j : Validator)
          → get j m' ≡ (if j == v then some (stake_of (get v m) + amount) else get j m))
unfolding bond
bond-adds v amount m m' s e = elim (Option-cases (get v m)) [
  | inl new ↦ (
    ground (arith, insert-IsAscending v amount m s),
    ground (arith, sum-insert v amount m s, sum-remove-none v m),
    λ j. ground (arith, get-insert v j amount m),
  )
  | inr (x, old) ↦ (
    ground (arith, insert-IsAscending v (x + amount) m s),
    ground (arith, sum-insert v (x + amount) m s, sum-remove v x m),
    λ j. ground (arith, get-insert v j (x + amount) m),
  )
]

-- Bonding fails exactly by the panic of an addition that exceeds 512 bits.
pub bond-fails :
    (v : Validator) (amount : ℕ) (m : Stakes) (t : Trap)
    → bond v amount m ≡ err t
    → (t ≡ panicked) × (u512_max < stake_of (get v m) + amount)
unfolding bond
bond-fails v amount m t e = elim (Option-cases (get v m)) [
  | inl new ↦ ground arith
  | inr (x, old) ↦ ground arith
]

-- `m'` is `m` with the payout taken off the validator's stake.
abbrev pub Unbonded : Validator → ℕ → Stakes → Stakes → Type 0
Unbonded v payout m m' =
    IsAscending (keys m')
    × (m' ≢ [])
    × (staked m' + payout ≡ staked m)
    × (stake_of (get v m') + payout ≡ stake_of (get v m))
    × ((j : Validator) → get j m' ≡ (if j == v then get v m' else get j m))

remove-ne-nil :
    (v : Validator) (x : ℕ) (m : Stakes) → length m ≢ 1 → get v m ≡ some x → remove v m ≢ []
remove-ne-nil v x [] h e = cc
remove-ne-nil v x (p ∷ []) h e = absurd (h refl)
remove-ne-nil v x (p ∷ q ∷ m) h e = ground arith

insert-ne-nil : (v : Validator) (x : ℕ) (m : Stakes) → insert v x m ≢ []
insert-ne-nil v x [] = ground arith
insert-ne-nil v x (p ∷ m) = ground arith

unbond_all-Unbonded :
    (v : Validator) (o : Option ℕ) (lo dec : ℕ) (m : Stakes) (p : ℕ)
    → IsAscending (keys m)
    → (unbond_all v o lo dec m).1 ≡ ok p
    → Unbonded v p m (unbond_all v o lo dec m).0
unfolding unbond_all
unbond_all-Unbonded v o lo dec m p s e = elim (Option-cases (get v m)) [
  | inl new ↦ absurd (ground arith)
  | inr (x, old) ↦ (
    ground (arith, remove-IsAscending v m s),
    ground (arith, remove-ne-nil v x m),
    ground (arith, sum-remove v x m),
    ground (arith, get-remove_self v m s),
    λ j. ground (arith, get-remove_self v m s, get-remove_ne v j m),
  )
]

lowered-Unbonded :
    (v : Validator) (a x : ℕ) (m : Stakes)
    → IsAscending (keys m)
    → get v m ≡ some x
    → a < x
    → Unbonded v a m (insert v (x - a) m)
lowered-Unbonded v a x m s old h = (
  insert-IsAscending v (x - a) m s,
  insert-ne-nil v (x - a) m,
  ground (arith, sum-insert v (x - a) m s, sum-remove v x m),
  ground (arith, get-insert v v (x - a) m),
  λ j. ground (arith, get-insert v j (x - a) m, get-insert v v (x - a) m),
)

-- An amount below the stake is taken off it, and any other amount goes the way of `unbond_all`.
unbond_amount-cases :
    (v : Validator) (a lo dec : ℕ) (m : Stakes) (p : ℕ)
    → (unbond_amount v a lo dec m).1 ≡ ok p
    → ((x : ℕ) × (get v m ≡ some x)
        × (a < x)
        × (p ≡ a)
        × (unbond_amount v a lo dec m ≡ (insert v (x - a) m, ok a)))
      ⊎ (unbond_amount v a lo dec m ≡ unbond_all v (some a) lo dec m)
unfolding unbond_amount
unbond_amount-cases v a lo dec m p e = elim (Option-cases (get v m)) [
  | inl new ↦ absurd (ground arith)
  | inr (x, old) ↦ elim (Bool-cases (ltb a x)) [
    | inl small ↦ inl (x, old, ground arith, ground arith, ground arith)
    | inr large ↦ inr (ground arith)
  ]
]

unbond_with-Unbonded :
    (v : Validator) (o : Option ℕ) (lo dec : ℕ) (m : Stakes) (p : ℕ)
    → IsAscending (keys m)
    → (unbond_with v o lo dec m).1 ≡ ok p
    → Unbonded v p m (unbond_with v o lo dec m).0
unfolding unbond_with
unbond_with-Unbonded v none lo dec m p s e = unbond_all-Unbonded v none lo dec m p s e
unbond_with-Unbonded v (some a) lo dec m p s e = elim (unbond_amount-cases v a lo dec m p e) [
  | inl (x, old, small, paid, eq) ↦ rw (eq, paid) (lowered-Unbonded v a x m s old small)
  | inr eq ↦ rw eq (unbond_all-Unbonded v (some a) lo dec m p s (rw eq at e))
]

-- The largest decrease that a call computes, where it gets so far.
pub unbond-cases :
    (v : Validator) (o : Option ℕ) (m : Stakes) (p : ℕ)
    → (unbond v o m).1 ≡ ok p
    → (dec : ℕ) × (dec * 1_000_000 ≤ sum_stakes m * max_rel_decrease)
      × (unbond v o m ≡ unbond_with v o (lower_bound v m) dec m)
unfolding unbond
unbond-cases v o m p e = elim (Option-cases (checked_mul_u512 (sum_stakes m) max_rel_decrease)) [
  | inl overflow ↦ absurd (ground arith)
  | inr (scaled, fits) ↦ (min max_decrease (scaled / 1_000_000), ground arith, ground arith)
]

-- A successful unbonding takes what it returns off the validator's stake, which was at least that,
-- and off no other; the staked motes fall by the same amount, the map stays in order, and at least
-- one validator is left.
pub unbond-Unbonded :
    (v : Validator) (o : Option ℕ) (m : Stakes) (p : ℕ)
    → IsAscending (keys m)
    → (unbond v o m).1 ≡ ok p
    → Unbonded v p m (unbond v o m).0
unbond-Unbonded v o m p s e =
    let (dec, small, eq) = unbond-cases v o m p e in
    rw eq (unbond_with-Unbonded v o (lower_bound v m) dec m p s (rw eq at e))
