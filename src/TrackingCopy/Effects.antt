-- ===== src/TrackingCopy/Effects.antt =====
-- The effects that a tracking copy of execution-engine/engine-core/src/tracking_copy/mod.rs records
-- for a key, beside what it holds for that key.
use casper_labs.Base.{
  ◌≡◌, ◌≢◌, refl, sym, ap, ◌∙◌, true, Option, none, some, Result, ok, err, ◌>>=◌, ◌⊎◌, inl, inr,
  arith, ℕ,
}
use mathlib.Core.Path.{subst}
use casper_labs.TrackingCopy.Overlay.{or_read}
use casper_labs.KeyMap.{value_or}
use casper_labs.Values.{NamedKeys, StoredValue}
use casper_labs.Transform.{
  Transform, Error, type_mismatch, identity, write, add_keys, failure, written, apply, combine,
}
use casper_labs.Transform.Compose.{
  Adds, int32, uint64, uint128, uint256, uint512, sum_of, mismatch, combine-AddsSum,
}
use casper_labs.Transform.Fits.{
  InRange, fits, Kind, is_identity, is_write, is_keys, is_failure, is_add, kind,
}
use casper_labs.Transform.Sequence.{
  combine-identity_left, combine-write_right, combine-write_left, apply-combine,
}

module _ {V : Type 0} where
  Adds-InRange : {a : Transform V} {w p : _} → Adds a w p → InRange a
  Adds-InRange (int32 n r) = r
  Adds-InRange (uint64 n r) = r
  Adds-InRange (uint128 n r) = r
  Adds-InRange (uint256 n r) = r
  Adds-InRange (uint512 n r) = r

  written-InRange : (r : Result Error (StoredValue V)) → InRange (written r)
  written-InRange (ok v) = tt
  written-InRange (err e) = tt

  -- A transform that neither fails nor writes by itself, as the ones that `add` records.
  pub data IsAddition : Transform V → Type 0 where
    of_number : {a : Transform V} {w p : _} → Adds a w p → IsAddition a
    of_keys : (ks : NamedKeys) → IsAddition (add_keys ks)

  pub IsAddition-InRange : {a : Transform V} → IsAddition a → InRange a
  IsAddition-InRange (of_number d) = Adds-InRange d
  IsAddition-InRange (of_keys ks) = tt

  combine-failure_left :
      {b : Transform V} {w p : ℕ} → Adds b w p → (e : Error) → combine (failure e) b ≡ failure e
  unfolding combine
  combine-failure_left (int32 n r) e = refl
  combine-failure_left (uint64 n r) e = refl
  combine-failure_left (uint128 n r) e = refl
  combine-failure_left (uint256 n r) e = refl
  combine-failure_left (uint512 n r) e = refl

  combine-keys_number :
      {b : Transform V} {w p : ℕ}
      → Adds b w p
      → (ks : NamedKeys) → combine (add_keys ks) b ≡ failure type_mismatch
  unfolding combine
  combine-keys_number (int32 n r) ks = refl
  combine-keys_number (uint64 n r) ks = refl
  combine-keys_number (uint128 n r) ks = refl
  combine-keys_number (uint256 n r) ks = refl
  combine-keys_number (uint512 n r) ks = refl

  combine-number_keys :
      {a : Transform V} {w p : ℕ}
      → Adds a w p
      → (ks : NamedKeys) → combine a (add_keys ks) ≡ failure type_mismatch
  unfolding combine
  combine-number_keys (int32 n r) ks = refl
  combine-number_keys (uint64 n r) ks = refl
  combine-number_keys (uint128 n r) ks = refl
  combine-number_keys (uint256 n r) ks = refl
  combine-number_keys (uint512 n r) ks = refl

  sum-InRange :
      {a b : Transform V} {w w' p q : ℕ} → Adds a w p → Adds b w' q → InRange (combine a b)
  sum-InRange d d' = elim (combine-AddsSum d d') [
    | sum_of w r z h ↦ Adds-InRange z
    | mismatch h ↦ subst InRange (sym h) tt
  ]

  combine-InRange : {a b : Transform V} → Kind a → IsAddition b → InRange (combine a b)
  unfolding combine
  combine-InRange {b = b} is_identity d =
      subst InRange (sym (combine-identity_left (kind b (IsAddition-InRange d))))
        (IsAddition-InRange d)
  combine-InRange {b = b} (is_write v) (of_number d) =
      subst InRange (sym (combine-write_left d v)) (written-InRange (apply b v))
  combine-InRange (is_write v) (of_keys ks) = written-InRange (apply (add_keys ks) v)
  combine-InRange (is_keys ks) (of_number d) = subst InRange (sym (combine-keys_number d ks)) tt
  combine-InRange (is_keys ks) (of_keys more) = tt
  combine-InRange (is_failure e) (of_number d) = subst InRange (sym (combine-failure_left d e)) tt
  combine-InRange (is_failure e) (of_keys ks) = tt
  combine-InRange (is_add d) (of_number d') = sum-InRange d d'
  combine-InRange (is_add d) (of_keys ks) = subst InRange (sym (combine-number_keys d ks)) tt

  write-addition :
      {t : Transform V}
      → IsAddition t
      → (v w : StoredValue V) → apply t v ≡ ok w
      → combine (write v) t ≡ write w
  unfolding combine
  write-addition (of_number d) v w e = combine-write_left d v ∙ ap written e
  write-addition (of_keys ks) v w e = ap written e

module _ {V E : Type 0} (r : Result E (Option (StoredValue V))) where
  -- What is held for a key and what is recorded for it, where `r` is what the underlying state holds
  -- under the key.
  pub data Records : Option (StoredValue V) → Option (Transform V) → Type 0 where
    untouched : Records none none
    was_read : (v : StoredValue V) → r ≡ ok (some v) → Records none (some identity)
    changed :
        (v : StoredValue V) (f : Transform V)
        → InRange f
        → ((b : StoredValue V) → r ≡ ok (some b) → apply f b ≡ ok v)
        → (((b : StoredValue V) → r ≢ ok (some b)) → f ≡ write v)
        → Records (some v) (some f)

-- The state holds a value, or it does not.
reads-cases :
    {E A : Type 0} (s : Result E (Option A))
    → ((b : A) × (s ≡ ok (some b))) ⊎ ((b : A) → s ≢ ok (some b))
reads-cases (ok (some b)) = inl (b, refl)
reads-cases (ok none) = inr (λ b e. ground (arith, e))
reads-cases (err x) = inr (λ b e. ground (arith, e))

module _ {V E : Type 0} {r : Result E (Option (StoredValue V))} where
  pub Records-read :
      {o : Option (StoredValue V)} {f : Option (Transform V)}
      → Records r o f
      → (v : StoredValue V) → or_read o r ≡ ok (some v)
      → Records r o (some (combine (value_or identity f) identity))
  unfolding combine
  Records-read untouched v e = was_read v e
  Records-read (was_read u e') v e = was_read v e
  Records-read (changed u f x a b) v e = changed u f x a b

  written-Records : (v : StoredValue V) → Records r (some v) (some (write v))
  unfolding apply
  written-Records v = changed v (write v) tt (λ b e. refl) (λ n. refl)

  pub Records-write :
      {o : Option (StoredValue V)} {f : Option (Transform V)}
      → Records r o f
      → (v : StoredValue V) → Records r (some v) (some (combine (value_or identity f) (write v)))
  unfolding combine
  Records-write untouched v = written-Records v
  Records-write (was_read u e) v = written-Records v
  Records-write (changed u f x a b) v =
      subst (λ g. Records r (some v) (some g))
        (sym (elim (reads-cases r) [
          | inl (c, e) ↦ combine-write_right (kind f x) v c u (a c e)
          | inr n ↦ ap (λ g. combine g (write v)) (b n)
        ]))
        (written-Records v)

  first_addition-Records :
      {t : Transform V}
      → IsAddition t
      → (v w : StoredValue V) → r ≡ ok (some v)
      → apply t v ≡ ok w
      → Records r (some w) (some (combine identity t))
  first_addition-Records {t} d v w e h =
      subst (λ g. Records r (some w) (some g))
        (sym (combine-identity_left (kind t (IsAddition-InRange d))))
        (changed w t (IsAddition-InRange d)
          (λ b e'. let same : v ≡ b = ground (arith, sym e ∙ e') in ap (apply t) (sym same) ∙ h)
          (λ n. absurd (n v e)))

  pub Records-add :
      {o : Option (StoredValue V)} {f : Option (Transform V)} {t : Transform V}
      → Records r o f
      → IsAddition t
      → (v w : StoredValue V) → or_read o r ≡ ok (some v)
      → apply t v ≡ ok w
      → ((b : StoredValue V) → r ≡ ok (some b) → fits (combine (value_or identity f) t) b ≡ true)
      → Records r (some w) (some (combine (value_or identity f) t))
  Records-add untouched d v w e h fit = first_addition-Records d v w e h
  Records-add (was_read u e') d v w e h fit = first_addition-Records d v w e h
  Records-add {t = t} (changed u f x a b) d v w e h fit =
      let same : u ≡ v = ground (arith, e) in
      let h' : apply t u ≡ ok w = ap (apply t) same ∙ h in
      changed w (combine f t) (combine-InRange (kind f x) d)
        (λ c e'.
          apply-combine f t c w x (IsAddition-InRange d) (ap (λ s. s >>= apply t) (a c e') ∙ h')
            (fit c e'))
        (λ n. ap (λ g. combine g t) (b n) ∙ write-addition d u w h')
