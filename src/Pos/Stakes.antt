-- ===== src/Pos/Stakes.antt =====
-- The stakes of execution-engine/proof-of-stake/src/stakes.rs.
pub mod Bonding
pub mod Limits
use casper_labs.Base.{
  ℕ, ◌-◌, ◌/◌, min, max, Bool, not, ◌&&◌, ◌||◌, Option, none, some, List, [], ◌∷◌, ⊤, Result, ok,
  err, ◌>>=◌, length, ltb, leb, ◌==◌, if◌then◌else◌,
}
use casper_labs.BtreeMap.{BtreeMap, get, insert, remove, values}
use casper_labs.Types.{
  u512_max, checked_add_u512, checked_mul_u512, saturating_add_u512, saturating_sub_u512,
}
use casper_labs.Pos.Error.{
  Trap, or_panic, fail, not_bonded, spread_too_high, unbond_too_large, bond_too_large,
  cannot_unbond_last_validator,
}

abbrev pub Validator : Type 0
Validator = ℕ

abbrev pub Stakes : Type 0
Stakes = BtreeMap ℕ

abbrev pub max_spread : ℕ
max_spread = u512_max

abbrev pub max_increase : ℕ
max_increase = u512_max

abbrev pub max_decrease : ℕ
max_decrease = u512_max

abbrev pub max_rel_increase : ℕ
max_rel_increase = 1_000_000_000

abbrev pub max_rel_decrease : ℕ
max_rel_decrease = 900_000

-- `.filter(|(v, _)| *v != validator).map(|(_, s)| s)`
unfoldable pub stakes_without : Validator → Stakes → List ℕ
stakes_without v [] = []
stakes_without v ((j, s) ∷ m) = let rest = stakes_without v m in if j == v then rest else s ∷ rest

abbrev min_with : ℕ → Option ℕ → Option ℕ
min_with s none = some s
min_with s (some t) = some (min s t)

abbrev max_with : ℕ → Option ℕ → Option ℕ
max_with s none = some s
max_with s (some t) = some (max s t)

-- `Iterator::min` and `Iterator::max`
unfoldable pub iter_min : List ℕ → Option ℕ
iter_min [] = none
iter_min (s ∷ ss) = min_with s (iter_min ss)

unfoldable pub iter_max : List ℕ → Option ℕ
iter_max [] = none
iter_max (s ∷ ss) = max_with s (iter_max ss)

unfoldable pub min_without : Validator → Stakes → Option ℕ
unfolding stakes_without iter_min
min_without v m = iter_min (stakes_without v m)

unfoldable pub max_without : Validator → Stakes → Option ℕ
unfolding stakes_without iter_max
max_without v m = iter_max (stakes_without v m)

fold_stakes : ℕ → List ℕ → ℕ
fold_stakes acc [] = acc
fold_stakes acc (s ∷ ss) = fold_stakes (saturating_add_u512 acc s) ss

-- `sum`, which saturates
unfoldable pub sum_stakes : Stakes → ℕ
unfolding fold_stakes
sum_stakes m = fold_stakes 0 (values m)

abbrev unwrap_or : ℕ → Option ℕ → ℕ
unwrap_or d none = d
unwrap_or d (some n) = n

-- The bound that `unbond` and `validate_bonding` call `min`.
abbrev pub lower_bound : Validator → Stakes → ℕ
lower_bound v m = saturating_sub_u512 (unwrap_or 0 (max_without v m)) max_spread

-- Removes the validator, once the amount is known to be no smaller than the stake.
unfoldable pub unbond_all : Validator → Option ℕ → ℕ → ℕ → Stakes → Stakes × Result Trap ℕ
unbond_all validator maybe_amount min_stake max_dec m =
    if length m == 1 then (m, fail cannot_unbond_last_validator) else elim (get validator m) [
      | none ↦ (m, fail not_bonded)
      | some stake ↦
          if ltb stake (unwrap_or 0 maybe_amount)
          then (remove validator m, fail unbond_too_large)
          else if ltb (saturating_add_u512 min_stake max_dec) stake && ltb max_dec stake
          then (remove validator m, fail unbond_too_large)
          else (remove validator m, ok stake)
    ]

-- The case of an amount: if the stake is greater, it is lowered, else the validator is removed.
unfoldable pub unbond_amount : Validator → ℕ → ℕ → ℕ → Stakes → Stakes × Result Trap ℕ
unfolding unbond_all
unbond_amount validator amount min_stake max_dec m = elim (get validator m) [
  | none ↦ (m, fail not_bonded)
  | some stake ↦
      if ltb amount stake
      then (if ltb (stake - amount) min_stake
          then (m, fail spread_too_high)
          else if ltb max_dec amount
          then (m, fail unbond_too_large)
          else (insert validator (stake - amount) m, ok amount))
      else unbond_all validator (some amount) min_stake max_dec m
]

-- Once the largest decrease is known.
unfoldable pub unbond_with : Validator → Option ℕ → ℕ → ℕ → Stakes → Stakes × Result Trap ℕ
unfolding unbond_amount unbond_all
unbond_with validator (some amount) min_stake max_dec m =
    unbond_amount validator amount min_stake max_dec m
unbond_with validator none min_stake max_dec m = unbond_all validator none min_stake max_dec m

-- `&mut self`: the stakes as the call leaves them stand beside its result.
unfoldable pub unbond : Validator → Option ℕ → Stakes → Stakes × Result Trap ℕ
unfolding unbond_with
unbond validator maybe_amount m = elim (checked_mul_u512 (sum_stakes m) max_rel_decrease) [
  | none ↦ (m, or_panic none)
  | some scaled ↦
      unbond_with validator maybe_amount (lower_bound validator m)
        (min max_decrease (scaled / 1_000_000)) m
]

unfoldable pub bond : Validator → ℕ → Stakes → Result Trap Stakes
bond validator amount m = elim (get validator m) [
  | none ↦ ok (insert validator amount m)
  | some x ↦ or_panic (checked_add_u512 x amount) >>= λ total. ok (insert validator total m)
]

-- The stake that the validator would have.
abbrev pub raised_stake : Validator → ℕ → Stakes → Option ℕ
raised_stake validator amount m = elim (get validator m) [
  | none ↦ some amount
  | some s ↦ checked_add_u512 s amount
]

-- The amount is too large for the stake that the validator would have.
abbrev pub increase_too_large : ℕ → ℕ → ℕ → ℕ → Bool
increase_too_large stake amount min_stake max_inc =
    (stake == 0 && ltb (saturating_add_u512 min_stake max_inc) amount)
    || (not (stake == 0) && ltb max_inc amount)

unfoldable pub validate_bonding : Validator → ℕ → Stakes → Result Trap ⊤
validate_bonding validator amount m = do
  let max_stake = saturating_add_u512 (unwrap_or u512_max (min_without validator m)) max_spread
  let min_stake = lower_bound validator m
  stake ← or_panic (raised_stake validator amount m)
  if ltb max_stake stake || ltb stake min_stake then fail spread_too_high else do
    scaled ← or_panic (checked_mul_u512 (sum_stakes m) max_rel_increase)
    let max_inc = min max_increase (scaled / 1_000_000)
    if increase_too_large stake amount min_stake max_inc then fail bond_too_large else ok tt
