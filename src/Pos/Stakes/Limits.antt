-- ===== src/Pos/Stakes/Limits.antt =====
-- The limits that execution-engine/proof-of-stake/src/stakes.rs sets to bonding and unbonding.
use casper_labs.Base.{
  ℕ, ◌+◌, ◌*◌, ◌≤◌, ◌≡◌, Option, none, some, List, [], ◌∷◌, ok, arith, sum, All, min,
}
use casper_labs.BtreeMap.{get, values}
use casper_labs.Types.{u512_max}
use casper_labs.Pos.Stakes.{
  Stakes, Validator, unbond, unbond_with, sum_stakes, fold_stakes, lower_bound, max_without,
  stakes_without, iter_max, unwrap_or, validate_bonding,
}
use casper_labs.Pos.Stakes.Bonding.{staked, stake_of, unbond-cases}

fold_stakes-eq-min :
    (acc : ℕ) (ss : List ℕ) → acc ≤ u512_max → fold_stakes acc ss ≡ min u512_max (acc + sum ss)
unfolding fold_stakes
fold_stakes-eq-min acc [] h = omega arith
fold_stakes-eq-min acc (s ∷ ss) h =
    omega (arith, fold_stakes-eq-min (min u512_max (acc + s)) ss (omega arith))

-- The source's total is the sum of the stakes, cut off at the largest number of 512 bits.
pub sum_stakes-eq-min : (m : Stakes) → sum_stakes m ≡ min u512_max (staked m)
unfolding sum_stakes
sum_stakes-eq-min m = omega (arith, fold_stakes-eq-min 0 (values m) (omega arith))

-- Every stake is a number of 512 bits.
abbrev pub InRange : Stakes → Type 0
InRange m = All (λ s. s ≤ u512_max) (values m)

stakes_without-InRange :
    (v : Validator) (m : Stakes) → InRange m → All (λ s. s ≤ u512_max) (stakes_without v m)
unfolding stakes_without
stakes_without-InRange v [] h = tt
stakes_without-InRange v ((j, s) ∷ m) h = ground (arith, stakes_without-InRange v m h.1)

iter_max-le : (ss : List ℕ) → All (λ s. s ≤ u512_max) ss → unwrap_or 0 (iter_max ss) ≤ u512_max
unfolding iter_max
iter_max-le [] h = omega arith
iter_max-le (s ∷ ss) h = ground (arith, iter_max-le ss h.1)

lower_bound-eq-zero : (v : Validator) (m : Stakes) → InRange m → lower_bound v m ≡ 0
unfolding max_without
lower_bound-eq-zero v m h =
    omega (arith, iter_max-le (stakes_without v m) (stakes_without-InRange v m h))

unbond_with-le :
    (v : Validator) (o : Option ℕ) (lo dec : ℕ) (m : Stakes) (p : ℕ)
    → lo ≡ 0
    → (unbond_with v o lo dec m).1 ≡ ok p
    → p ≤ dec
unfolding unbond_with
unbond_with-le v none lo dec m p z e = ground arith
unbond_with-le v (some a) lo dec m p z e = ground arith

-- One unbonding takes at most nine tenths of the total stakes.
pub unbond-le-total :
    (v : Validator) (o : Option ℕ) (m : Stakes) (p : ℕ)
    → InRange m
    → (unbond v o m).1 ≡ ok p
    → p * 10 ≤ staked m * 9
unbond-le-total v o m p r e =
    let (dec, small, eq) = unbond-cases v o m p e in
    omega (
      arith,
      unbond_with-le v o (lower_bound v m) dec m p (lower_bound-eq-zero v m r) (rw eq at e),
      sum_stakes-eq-min m,
    )

unbond_with-exact :
    (v : Validator) (a lo dec : ℕ) (m : Stakes) (p : ℕ)
    → (unbond_with v (some a) lo dec m).1 ≡ ok p
    → (p ≡ a) × (a ≤ stake_of (get v m))
unfolding unbond_with
unbond_with-exact v a lo dec m p e = ground arith

-- Where an amount is asked for, a successful unbonding returns just that amount, and the stake was
-- at least that; so an amount above the stake never takes the whole stake.
pub unbond-exact :
    (v : Validator) (a : ℕ) (m : Stakes) (p : ℕ)
    → (unbond v (some a) m).1 ≡ ok p
    → (p ≡ a) × (a ≤ stake_of (get v m))
unbond-exact v a m p e =
    let (dec, small, eq) = unbond-cases v (some a) m p e in
    unbond_with-exact v a (lower_bound v m) dec m p (rw eq at e)

-- An accepted bonding raises an existing stake by at most a thousand times the total stakes, keeps
-- it a number of 512 bits, and never runs into a panic when the bond is then made.
pub validate_bonding-limits :
    (v : Validator) (a : ℕ) (m : Stakes)
    → InRange m
    → a ≤ u512_max
    → validate_bonding v a m ≡ ok tt
    → (stake_of (get v m) + a ≤ u512_max) × (a ≤ staked m * 1_000)
unfolding validate_bonding
validate_bonding-limits v a m r fits e =
    ground (arith, lower_bound-eq-zero v m r, sum_stakes-eq-min m)
