-- ===== src/Account/Weights.antt =====
-- The weights that execution-engine/engine-shared/src/account/associated_keys.rs adds up, as sums
-- over the map.
use casper_labs.Base.{ℕ, ◌+◌, ◌≤◌, min, ◌≡◌, refl, List, [], ◌∷◌, arith, sum}
use casper_labs.BtreeMap.{remove, keys, values, Above, IsAscending}
use casper_labs.Account.Thresholds.{Weight}
use casper_labs.Account.Keys.{
  PublicKey, AssociatedKeys, weights_of, fold_weights, keys_except, total_keys_weight,
  total_keys_weight_excluding,
}

-- The saturating fold is the sum, cut off at 255.
pub fold_weights-eq-min :
    (acc : ℕ) (ws : List Weight) → acc ≤ 255 → fold_weights acc ws ≡ min 255 (acc + sum ws)
unfolding fold_weights
fold_weights-eq-min acc [] h = omega arith
fold_weights-eq-min acc (w ∷ ws) h =
    omega (arith, fold_weights-eq-min (min 255 (acc + w)) ws (omega arith))

weights_of-Above :
    (k : PublicKey) (w : Weight) (ks : AssociatedKeys) (js : List PublicKey)
    → Above k js
    → weights_of ((k, w) ∷ ks) js ≡ weights_of ks js
unfolding weights_of
weights_of-Above k w ks [] h = refl
weights_of-Above k w ks (j ∷ js) h = ground (arith, weights_of-Above k w ks js h.1)

pub weights_of-keys :
    (ks : AssociatedKeys) → IsAscending (keys ks) → weights_of ks (keys ks) ≡ values ks
unfolding weights_of
weights_of-keys [] h = refl
weights_of-keys ((k, w) ∷ ks) h =
    ground (arith, weights_of-Above k w ks (keys ks) h.0, weights_of-keys ks h.1)

keys_except-Above : (k : PublicKey) (js : List PublicKey) → Above k js → keys_except k js ≡ js
unfolding keys_except
keys_except-Above k [] h = refl
keys_except-Above k (j ∷ js) h = ground (arith, keys_except-Above k js h.1)

Above-keys_except :
    (i k : PublicKey) (js : List PublicKey) → Above i js → Above i (keys_except k js)
unfolding keys_except
Above-keys_except i k [] h = tt
Above-keys_except i k (j ∷ js) h = ground (arith, Above-keys_except i k js h.1)

pub weights_of-keys_except :
    (k : PublicKey) (ks : AssociatedKeys)
    → IsAscending (keys ks)
    → weights_of ks (keys_except k (keys ks)) ≡ values (remove k ks)
unfolding weights_of keys_except
weights_of-keys_except k [] h = refl
weights_of-keys_except k ((i, w) ∷ ks) h = ground (
  arith,
  keys_except-Above k (keys ks),
  weights_of-Above i w ks (keys ks) h.0,
  weights_of-keys ks h.1,
  weights_of-Above i w ks (keys_except k (keys ks)),
  Above-keys_except i k (keys ks) h.0,
  weights_of-keys_except k ks h.1,
)

-- The three totals of the source.
pub total_keys_weight-eq-min :
    (ks : AssociatedKeys) → IsAscending (keys ks) → total_keys_weight ks ≡ min 255 (sum (values ks))
unfolding total_keys_weight
total_keys_weight-eq-min ks h =
    rw (weights_of-keys ks h) (omega (arith, fold_weights-eq-min 0 (values ks) (omega arith)))

pub total_keys_weight_excluding-eq-min :
    (k : PublicKey) (ks : AssociatedKeys)
    → IsAscending (keys ks)
    → total_keys_weight_excluding k ks ≡ min 255 (sum (values (remove k ks)))
unfolding total_keys_weight_excluding
total_keys_weight_excluding-eq-min k ks h =
    rw (weights_of-keys_except k ks h)
      (omega (arith, fold_weights-eq-min 0 (values (remove k ks)) (omega arith)))
