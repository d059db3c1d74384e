-- ===== src/BtreeMap/Order.antt =====
-- Insertion and removal, and the order and the number of the entries.
use casper_labs.Base.{ℕ, ◌+◌, ◌<◌, ◌≤◌, ◌≡◌, none, some, [], ◌∷◌, List, arith, length}
use casper_labs.BtreeMap.{BtreeMap, get, insert, remove, keys, Above, IsAscending}
use casper_labs.BtreeMap.Lookup.{get-Above}

pub Above-lt : (k j : ℕ) (ks : List ℕ) → k < j → Above j ks → Above k ks
Above-lt k j [] h a = tt
Above-lt k j (i ∷ ks) h a = (omega arith, Above-lt k j ks h a.1)

module _ {ℓ} {V : Type ℓ} where
  Above-insert :
      (j k : ℕ) (v : V) (m : BtreeMap V) → j < k → Above j (keys m) → Above j (keys (insert k v m))
  Above-insert j k v [] h a = ground arith
  Above-insert j k v ((i, w) ∷ m) h a = ground (arith, Above-insert j k v m h a.1)

  pub insert-IsAscending :
      (k : ℕ) (v : V) (m : BtreeMap V) → IsAscending (keys m) → IsAscending (keys (insert k v m))
  insert-IsAscending k v [] h = ground arith
  insert-IsAscending k v ((i, w) ∷ m) h =
      ground (arith, insert-IsAscending k v m h.1, Above-insert i k v m, Above-lt k i (keys m))

  Above-remove : (j k : ℕ) (m : BtreeMap V) → Above j (keys m) → Above j (keys (remove k m))
  Above-remove j k [] a = tt
  Above-remove j k ((i, w) ∷ m) a = ground (arith, Above-remove j k m a.1)

  pub remove-IsAscending :
      (k : ℕ) (m : BtreeMap V) → IsAscending (keys m) → IsAscending (keys (remove k m))
  remove-IsAscending k [] h = tt
  remove-IsAscending k ((i, w) ∷ m) h =
      ground (arith, remove-IsAscending k m h.1, Above-remove i k m h.0)

  pub length-insert_new :
      (k : ℕ) (v : V) (m : BtreeMap V) → get k m ≡ none → length (insert k v m) ≡ length m + 1
  length-insert_new k v [] h = omega arith
  length-insert_new k v ((i, w) ∷ m) h = ground (arith, length-insert_new k v m)

  pub length-insert_old :
      (k : ℕ) (v u : V) (m : BtreeMap V)
      → IsAscending (keys m)
      → get k m ≡ some u
      → length (insert k v m) ≡ length m
  length-insert_old k v u [] s h = ground arith
  length-insert_old k v u ((i, w) ∷ m) s h =
      ground (arith, length-insert_old k v u m s.1, get-Above k m, Above-lt k i (keys m))

  pub length-remove : (k : ℕ) (m : BtreeMap V) → length (remove k m) ≤ length m
  length-remove k [] = omega arith
  length-remove k ((i, w) ∷ m) = ground (arith, length-remove k m)
