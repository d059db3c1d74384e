-- ===== src/KeyMap/Lookup.antt =====
-- Lookups in the maps of execution-engine/engine-shared/src/additive_map.rs.
use casper_labs.Base.{
  ℕ, ◌≡◌, refl, sym, ap, ◌∙◌, true, false, Bool-cases, inl, inr, Option, none, some, [], ◌∷◌, ◌++◌,
  arith, if◌then◌else◌,
}
use casper_labs.Types.{Key, account, hash, uref, local}
use casper_labs.KeyMap.{rights_eq, key_eq, KeyMap, find, put, without, Distinct}

rights_eq→eq : (a b : Option ℕ) → rights_eq a b ≡ true → a ≡ b
rights_eq→eq none none h = refl
rights_eq→eq (some a) (some b) h = ground arith
rights_eq→eq none (some b) h = ground arith
rights_eq→eq (some a) none h = ground arith

pub key_eq→eq : (j k : Key) → key_eq j k ≡ true → j ≡ k
key_eq→eq (account a) (account b) h = ground arith
key_eq→eq (hash a) (hash b) h = ground arith
key_eq→eq (uref u) (uref v) h = ground (arith, rights_eq→eq u.access_rights v.access_rights)
key_eq→eq (local a) (local b) h = ground arith
key_eq→eq (account a) (hash b) h = ground arith
key_eq→eq (account a) (uref b) h = ground arith
key_eq→eq (account a) (local b) h = ground arith
key_eq→eq (hash a) (account b) h = ground arith
key_eq→eq (hash a) (uref b) h = ground arith
key_eq→eq (hash a) (local b) h = ground arith
key_eq→eq (uref a) (account b) h = ground arith
key_eq→eq (uref a) (hash b) h = ground arith
key_eq→eq (uref a) (local b) h = ground arith
key_eq→eq (local a) (account b) h = ground arith
key_eq→eq (local a) (hash b) h = ground arith
key_eq→eq (local a) (uref b) h = ground arith

rights_eq_refl : (a : Option ℕ) → rights_eq a a ≡ true
rights_eq_refl none = refl
rights_eq_refl (some a) = ground arith

pub key_eq_refl : (k : Key) → key_eq k k ≡ true
key_eq_refl (account a) = ground arith
key_eq_refl (hash a) = ground arith
key_eq_refl (uref u) = ground (arith, rights_eq_refl u.access_rights)
key_eq_refl (local a) = ground arith

key_eq-apart : (i j k : Key) → key_eq k i ≡ false → key_eq j i ≡ true → key_eq j k ≡ false
key_eq-apart i j k other same = elim (Bool-cases (key_eq j k)) [
  | inl e ↦ ground (arith, other, ap (λ x. key_eq x i) (sym (key_eq→eq j k e)) ∙ same)
  | inr e ↦ e
]

key_eq-sym_false : (j k : Key) → key_eq j k ≡ false → key_eq k j ≡ false
key_eq-sym_false j k h = elim (Bool-cases (key_eq k j)) [
  | inl e ↦ ground (arith, h, ap (λ x. key_eq x k) (sym (key_eq→eq k j e)) ∙ key_eq_refl k)
  | inr e ↦ e
]

module _ {A : Type 0} where
  pub find-put :
      (j k : Key) (a : A) (m : KeyMap A)
      → find j (put k a m) ≡ (if key_eq j k then some a else find j m)
  unfolding find put
  find-put j k a [] = refl
  find-put j k a ((i, b) ∷ m) = elim (Bool-cases (key_eq k i)) [
    | inl same ↦ ground (arith, same, ap (key_eq j) (key_eq→eq k i same))
    | inr other ↦ elim (Bool-cases (key_eq j i)) [
      | inl here ↦ ground (arith, other, here, key_eq-apart i j k other here)
      | inr there ↦ ground (arith, other, there, find-put j k a m)
    ]
  ]

  pub find-without :
      (j k : Key) (m : KeyMap A) → find j (without k m) ≡ (if key_eq j k then none else find j m)
  unfolding find without
  find-without j k [] = ground arith
  find-without j k ((i, b) ∷ m) = elim (Bool-cases (key_eq k i)) [
    | inl same ↦ ground (arith, same, ap (key_eq j) (key_eq→eq k i same), find-without j k m)
    | inr other ↦ elim (Bool-cases (key_eq j i)) [
      | inl here ↦ ground (arith, other, here, key_eq-apart i j k other here)
      | inr there ↦ ground (arith, other, there, find-without j k m)
    ]
  ]

  pub find-append :
      (j : Key) (m : KeyMap A) (k : Key) (a : A)
      → find j (m ++ (k, a) ∷ [])
        ≡ elim (find j m) [ some b ↦ some b | none ↦ if key_eq j k then some a else none ]
  unfolding find
  find-append j [] k a = refl
  find-append j ((i, b) ∷ m) k a = elim (Bool-cases (key_eq j i)) [
    | inl here ↦ ground (arith, here)
    | inr there ↦ ground (arith, there, find-append j m k a)
  ]

  pub put-Distinct : (k : Key) (a : A) (m : KeyMap A) → Distinct m → Distinct (put k a m)
  unfolding put find
  put-Distinct k a [] h = (refl, tt)
  put-Distinct k a ((i, b) ∷ m) h = elim (Bool-cases (key_eq k i)) [
    | inl same ↦ rw same h
    | inr other ↦
        rw other (rw (find-put i k a m, key_eq-sym_false k i other) h.0, put-Distinct k a m h.1)
  ]
