-- ===== src/BtreeMap/Lookup.antt =====
-- What a lookup returns after an insertion or a removal.
use casper_labs.Base.{ℕ, ◌≡◌, ◌≢◌, refl, none, some, [], ◌∷◌, arith, ◌==◌, if◌then◌else◌}
use casper_labs.BtreeMap.{BtreeMap, get, insert, remove, keys, Above, IsAscending}

module _ {ℓ} {V : Type ℓ} where
  pub get-insert :
      (k j : ℕ) (v : V) (m : BtreeMap V)
      → get j (insert k v m) ≡ (if j == k then some v else get j m)
  get-insert k j v [] = refl
  get-insert k j v ((i, w) ∷ m) = ground (arith, get-insert k j v m)

  pub get-remove_ne : (k j : ℕ) (m : BtreeMap V) → j ≢ k → get j (remove k m) ≡ get j m
  get-remove_ne k j [] h = refl
  get-remove_ne k j ((i, w) ∷ m) h = ground (arith, get-remove_ne k j m h)

  -- A key below every key of the map is not in it.
  pub get-Above : (k : ℕ) (m : BtreeMap V) → Above k (keys m) → get k m ≡ none
  get-Above k [] h = refl
  get-Above k ((i, w) ∷ m) h = ground (arith, get-Above k m h.1)

  pub get-remove_self : (k : ℕ) (m : BtreeMap V) → IsAscending (keys m) → get k (remove k m) ≡ none
  get-remove_self k [] h = refl
  get-remove_self k ((i, w) ∷ m) h = ground (arith, get-remove_self k m h.1, get-Above i m h.0)

  -- Removing a key that is not there changes nothing.
  pub remove-eq_of_none : (k : ℕ) (m : BtreeMap V) → get k m ≡ none → remove k m ≡ m
  remove-eq_of_none k [] h = refl
  remove-eq_of_none k ((i, w) ∷ m) h = ground (arith, remove-eq_of_none k m)
