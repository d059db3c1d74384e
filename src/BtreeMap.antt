-- ===== src/BtreeMap.antt =====
-- The standard library's `BTreeMap`, as the components use it: an association list in strictly
-- ascending order of its keys. A key that is a byte array is the number that its bytes spell, most
-- significant first: arrays of one length are ordered as these numbers are.
pub mod Lookup
pub mod Order
pub mod Totals
use casper_labs.Base.{
  ℕ, ◌<◌, ◌≡◌, Bool, true, false, Option, none, some, List, [], ◌∷◌, ⊤, ltb, ◌==◌, if◌then◌else◌,
}

abbrev pub BtreeMap {ℓ} : Type ℓ → Type ℓ
BtreeMap V = List (ℕ × V)

module _ {ℓ} {V : Type ℓ} where
  abbrev pub get : ℕ → BtreeMap V → Option V
  get k [] = none
  get k ((j, v) ∷ m) = if k == j then some v else get k m

  abbrev pub contains_key : ℕ → BtreeMap V → Bool
  contains_key k m = elim (get k m) [ none ↦ false | some _ ↦ true ]

  -- An entry that is there is overwritten.
  abbrev pub insert : ℕ → V → BtreeMap V → BtreeMap V
  insert k v [] = (k, v) ∷ []
  insert k v ((j, w) ∷ m) =
      let rest = insert k v m in
      if ltb k j then (k, v) ∷ (j, w) ∷ m else if k == j then (k, v) ∷ m else (j, w) ∷ rest

  abbrev pub remove : ℕ → BtreeMap V → BtreeMap V
  remove k [] = []
  remove k ((j, w) ∷ m) = let rest = remove k m in if k == j then m else (j, w) ∷ rest

  abbrev pub keys : BtreeMap V → List ℕ
  keys [] = []
  keys ((k, v) ∷ m) = k ∷ keys m

  abbrev pub values : BtreeMap V → List V
  values [] = []
  values ((k, v) ∷ m) = v ∷ values m

-- Every element is above the bound.
abbrev pub Above : ℕ → List ℕ → Type 0
Above k [] = ⊤
Above k (j ∷ js) = (k < j) × Above k js

-- Strictly ascending: what a `BTreeSet` or the keys of a `BTreeMap` are.
abbrev pub IsAscending : List ℕ → Type 0
IsAscending [] = ⊤
IsAscending (k ∷ ks) = Above k ks × IsAscending ks
