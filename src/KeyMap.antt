-- ===== src/KeyMap.antt =====
-- Maps from keys, such as `HashMap<Key, _>` and the `AdditiveMap` of
-- execution-engine/engine-shared/src/additive_map.rs, as association lists.
pub mod Lookup
use casper_labs.Base.{
  ℕ, Bool, true, false, ◌&&◌, Option, none, some, List, [], ◌∷◌, ◌++◌, ◌==◌, ⊤, ◌≡◌, if◌then◌else◌,
}
use casper_labs.Types.{Key, account, hash, uref, local, URef}

abbrev pub rights_eq : Option ℕ → Option ℕ → Bool
rights_eq none none = true
rights_eq (some a) (some b) = a == b
rights_eq _ _ = false

-- The equality that `Key` derives.
abbrev pub key_eq : Key → Key → Bool
key_eq (account a) (account b) = a == b
key_eq (hash a) (hash b) = a == b
key_eq (uref u) (uref v) = u.addr == v.addr && rights_eq u.access_rights v.access_rights
key_eq (local a) (local b) = a == b
key_eq _ _ = false

abbrev pub KeyMap : Type 0 → Type 0
KeyMap A = List (Key × A)

module _ {A : Type 0} where
  unfoldable pub find : Key → KeyMap A → Option A
  find k [] = none
  find k ((j, a) ∷ m) = if key_eq k j then some a else find k m

  unfoldable pub put : Key → A → KeyMap A → KeyMap A
  put k a [] = (k, a) ∷ []
  put k a ((j, b) ∷ m) = let rest = put k a m in if key_eq k j then (j, a) ∷ m else (j, b) ∷ rest

  unfoldable pub without : Key → KeyMap A → KeyMap A
  without k [] = []
  without k ((j, a) ∷ m) = let rest = without k m in if key_eq k j then rest else (j, a) ∷ rest

-- The value under a key, or the default.
abbrev pub value_or : {A : Type 0} → A → Option A → A
value_or d none = d
value_or d (some a) = a

-- `AdditiveMap::insert_add`, with the addition and the default of the values.
unfoldable pub insert_add : {A : Type 0} → (A → A → A) → A → Key → A → KeyMap A → KeyMap A
unfolding find put
insert_add plus default k a m = put k (plus (value_or default (find k m)) a) m

-- No key stands twice in the map.
abbrev pub Distinct : {A : Type 0} → KeyMap A → Type 0
Distinct [] = ⊤
Distinct ((k, a) ∷ m) = (find k m ≡ none) × Distinct m
