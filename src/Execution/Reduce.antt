-- ===== src/Execution/Reduce.antt =====
-- `reduce_identity_writes` of execution-engine/engine-core/src/engine_state/execution_result.rs.
use casper_labs.Base.{
  ◌≡◌, refl, sym, ap, ◌∙◌, Option, none, some, Bool, true, Bool-cases, inl, inr, ⊤, Result, ok, err,
  [], ◌∷◌, if◌then◌else◌, arith,
}
use casper_labs.Types.{Key}
use casper_labs.KeyMap.{KeyMap, find, without, value_or, key_eq}
use casper_labs.KeyMap.Lookup.{find-put, find-without, key_eq→eq, key_eq_refl}
use casper_labs.Values.{StoredValue}
use casper_labs.Transform.{Transform, Error, identity, write, apply}
use casper_labs.Execution.{
  ExecutionEffect, written_over, overwritten, put_back, reduce_one, reduce_all,
  reduce_identity_writes,
}

module _ {E V : Type 0} (same : StoredValue V → StoredValue V → Bool)
    (read : Key → Result E (Option (StoredValue V))) where
  -- What the effect does to a value under a key.
  abbrev pub at : Key → ExecutionEffect V → StoredValue V → Result Error (StoredValue V)
  unfolding apply find
  at k e v = apply (value_or identity (find k e.transforms)) v

  abbrev pub SameIsEqual : Type 0
  SameIsEqual = (a b : StoredValue V) → same a b ≡ true → a ≡ b

  abbrev IsOverwrite : Option (Transform V) → Type 0
  IsOverwrite none = ⊤
  IsOverwrite (some identity) = ⊤
  IsOverwrite (some (write _)) = ⊤
  IsOverwrite _ = ⊥

  abbrev kept : StoredValue V → Option (Transform V) → Option (Transform V)
  kept old (some (write new)) = if same new old then some identity else some (write new)
  kept old _ = none

  find-put_back :
      (j k : Key) (old : StoredValue V) (t : Option (Transform V)) (e : ExecutionEffect V)
      → find j
          (put_back same read k old t (record e { transforms = without k e.transforms })).transforms
        ≡ (if key_eq j k then kept old t else find j e.transforms)
  unfolding put_back
  find-put_back j k old none e = find-without j k e.transforms
  find-put_back j k old (some (write new)) e = elim (Bool-cases (same new old)) [
    | inl equal ↦ ground (
      arith,
      equal,
      find-put j k identity (without k e.transforms),
      find-without j k e.transforms,
    )
    | inr other ↦ ground (
      arith,
      other,
      find-put j k (write new) (without k e.transforms),
      find-without j k e.transforms,
    )
  ]
  find-put_back j k old (some _) e = find-without j k e.transforms

  find-reduce_one :
      (j k : Key) (old : StoredValue V) (e : ExecutionEffect V)
      → find j (reduce_one same read k old e).transforms
        ≡ (if key_eq j k then kept old (find k e.transforms) else find j e.transforms)
  unfolding reduce_one
  find-reduce_one j k old e = find-put_back j k old (find k e.transforms) e

  kept-IsOverwrite : (old : StoredValue V) (t : Option (Transform V)) → IsOverwrite (kept old t)
  kept-IsOverwrite old none = tt
  kept-IsOverwrite old (some (write new)) = elim (Bool-cases (same new old)) [
    | inl equal ↦ rw equal tt
    | inr other ↦ rw other tt
  ]
  kept-IsOverwrite old (some _) = tt

  kept-apply :
      (old : StoredValue V) (t : Option (Transform V))
      → SameIsEqual
      → IsOverwrite t
      → apply (value_or identity (kept old t)) old ≡ apply (value_or identity t) old
  unfolding apply
  kept-apply old none eq h = refl
  kept-apply old (some identity) eq h = refl
  kept-apply old (some (write new)) eq h = elim (Bool-cases (same new old)) [
    | inl equal ↦ rw equal (ap ok (sym (eq new old equal)))
    | inr other ↦ rw other refl
  ]
  kept-apply old (some _) eq h = elim h [ ]

  reduce_one-IsOverwrite :
      (j k : Key) (old : StoredValue V) (e : ExecutionEffect V)
      → IsOverwrite (find j e.transforms)
      → IsOverwrite (find j (reduce_one same read k old e).transforms)
  reduce_one-IsOverwrite j k old e h = elim (Bool-cases (key_eq j k)) [
    | inl here ↦ rw (find-reduce_one j k old e, here) (kept-IsOverwrite old (find k e.transforms))
    | inr there ↦ rw (find-reduce_one j k old e, there) h
  ]

  reduce_one-here :
      (k : Key) (old : StoredValue V) (e : ExecutionEffect V)
      → SameIsEqual
      → IsOverwrite (find k e.transforms)
      → at k (reduce_one same read k old e) old ≡ at k e old
  unfolding at
  reduce_one-here k old e eq h =
      rw (find-reduce_one k k old e, key_eq_refl k) (kept-apply old (find k e.transforms) eq h)

  found_once :
      (r : Result E (Option (StoredValue V))) (a b : StoredValue V)
      → r ≡ ok (some a)
      → r ≡ ok (some b)
      → a ≡ b
  found_once r a b ra rb = ground arith

  reduce_one-at :
      (j k : Key) (v old : StoredValue V) (e : ExecutionEffect V)
      → SameIsEqual
      → IsOverwrite (find k e.transforms)
      → read k ≡ ok (some old)
      → read j ≡ ok (some v)
      → at j (reduce_one same read k old e) v ≡ at j e v
  unfolding at
  reduce_one-at j k v old e eq h rk rj = elim (Bool-cases (key_eq j k)) [
    | inl here ↦
        rw (key_eq→eq j k here, found_once (read j) v old rj (ap read (key_eq→eq j k here) ∙ rk))
          (reduce_one-here k old e eq h)
    | inr there ↦ rw (find-reduce_one j k old e, there) refl
  ]

  -- The values to compare with are those that the reader returns, for keys that are written.
  abbrev Overwrites : KeyMap (StoredValue V) → ExecutionEffect V → Type 0
  Overwrites [] e = ⊤
  Overwrites ((k, v) ∷ kvs) e =
      (read k ≡ ok (some v)) × IsOverwrite (find k e.transforms) × Overwrites kvs e

  reduce_one-Overwrites :
      (kvs : KeyMap (StoredValue V)) (k : Key) (old : StoredValue V) (e : ExecutionEffect V)
      → Overwrites kvs e
      → Overwrites kvs (reduce_one same read k old e)
  reduce_one-Overwrites [] k old e h = tt
  reduce_one-Overwrites ((j, v) ∷ kvs) k old e (r, o, h) =
      (r, reduce_one-IsOverwrite j k old e o, reduce_one-Overwrites kvs k old e h)

  reduce_all-at :
      (j : Key) (v : StoredValue V) (kvs : KeyMap (StoredValue V)) (e : ExecutionEffect V)
      → SameIsEqual
      → read j ≡ ok (some v)
      → Overwrites kvs e
      → at j (reduce_all same read kvs e) v ≡ at j e v
  unfolding reduce_all
  reduce_all-at j v [] e eq rj h = refl
  reduce_all-at j v ((k, old) ∷ kvs) e eq rj (r, o, h) =
      reduce_all-at j v kvs (reduce_one same read k old e) eq rj
        (reduce_one-Overwrites kvs k old e h)
      ∙ reduce_one-at j k v old e eq o r rj

  reader_found :
      (r : Result E (Option (StoredValue V))) (v : StoredValue V)
      → elim r [ ok found ↦ found | err _ ↦ none ] ≡ some v
      → r ≡ ok (some v)
  reader_found (ok found) v h = ap ok h
  reader_found (err _) v h = ground arith

  written_over-some :
      (k : Key) (t : Option (Transform V)) (v : StoredValue V)
      → written_over same read k t ≡ some v
      → (read k ≡ ok (some v)) × IsOverwrite t
  written_over-some k (some (write new)) v h = (reader_found (read k) v h, tt)
  written_over-some k none v h = ground arith
  written_over-some k (some _) v h = ground arith

  Overwrites-cons :
      (k : Key) (found : Option (StoredValue V)) (kvs : KeyMap (StoredValue V))
      (e : ExecutionEffect V)
      → ((v : StoredValue V)
          → found ≡ some v
          → (read k ≡ ok (some v)) × IsOverwrite (find k e.transforms))
      → Overwrites kvs e
      → Overwrites (elim found [ some v ↦ (k, v) ∷ kvs | none ↦ kvs ]) e
  Overwrites-cons k none kvs e each h = h
  Overwrites-cons k (some v) kvs e each h = let (r, o) = each v refl in (r, o, h)

  overwritten-Overwrites :
      (m : KeyMap (Transform V)) (e : ExecutionEffect V)
      → Overwrites (overwritten same read e.transforms m) e
  unfolding overwritten
  overwritten-Overwrites [] e = tt
  overwritten-Overwrites ((k, t) ∷ m) e =
      Overwrites-cons k (written_over same read k (find k e.transforms))
        (overwritten same read e.transforms m) e (written_over-some k (find k e.transforms))
        (overwritten-Overwrites m e)

  -- Where equality of stored values is sound, taking the writes of unchanged values out of an effect
  -- leaves what the effect does to every stored value as it was.
  pub reduce_identity_writes-at :
      (j : Key) (v : StoredValue V) (e : ExecutionEffect V)
      → SameIsEqual
      → read j ≡ ok (some v)
      → at j (reduce_identity_writes same read e) v ≡ at j e v
  unfolding reduce_identity_writes
  reduce_identity_writes-at j v e eq rj =
      reduce_all-at j v (overwritten same read e.transforms e.transforms) e eq rj
        (overwritten-Overwrites e.transforms e)
