-- ===== src/BtreeMap/Totals.antt =====
-- The sum of the values of a map of numbers, under insertion and removal.
use casper_labs.Base.{ℕ, ◌+◌, ◌≡◌, refl, none, some, [], ◌∷◌, arith, sum}
use casper_labs.BtreeMap.{BtreeMap, get, insert, remove, keys, values, IsAscending}
use casper_labs.BtreeMap.Lookup.{get-Above}
use casper_labs.BtreeMap.Order.{Above-lt}

-- Removing a key takes its value away, if it is there.
pub sum-remove-none :
    (k : ℕ) (ks : BtreeMap ℕ) → get k ks ≡ none → sum (values (remove k ks)) ≡ sum (values ks)
sum-remove-none k [] h = refl
sum-remove-none k ((i, v) ∷ ks) h = ground (arith, sum-remove-none k ks)

pub sum-remove :
    (k : ℕ) (w : ℕ) (ks : BtreeMap ℕ)
    → get k ks ≡ some w
    → sum (values (remove k ks)) + w ≡ sum (values ks)
sum-remove k w [] h = cc
sum-remove k w ((i, v) ∷ ks) h = ground (arith, sum-remove k w ks)

-- An insertion replaces the value of its key.
pub sum-insert :
    (k : ℕ) (w : ℕ) (ks : BtreeMap ℕ)
    → IsAscending (keys ks)
    → sum (values (insert k w ks)) ≡ sum (values (remove k ks)) + w
sum-insert k w [] h = omega arith
sum-insert k w ((i, v) ∷ ks) h =
    ground
      (arith, sum-insert k w ks h.1, sum-remove-none k ks, get-Above k ks, Above-lt k i (keys ks))
