-- ===== src/Transform/Sequence.antt =====
-- Transforms one after the other, and their sum: `impl Add for Transform` of
-- execution-engine/engine-shared/src/transform.rs.
use casper_labs.Base.{
  ℕ, ◌+◌, ◌%◌, ◌≡◌, ◌≢◌, refl, sym, ap, ◌∙◌, true, Option, none, some, Result, ok, ◌>>=◌,
  Result-cases, inl, inr, arith,
}
use mathlib.Core.Path.{fun_ext}
use casper_labs.Types.{Key}
use casper_labs.Values.{
  NumType, modulus, NamedKeys, append, prefer, number, StoredValue, cl_value, account, contract,
  account_append, contract_append,
}
use casper_labs.Transform.{
  Transform, Error, identity, write, add_keys, failure, apply, combine, written, append_keys,
}
use casper_labs.Transform.Compose.{
  Adds, int32, uint64, uint128, uint256, uint512, apply-number, sum_of, mismatch, combine-AddsSum,
  AddsSum-apply,
}
use casper_labs.Transform.Fits.{
  InRange, fits, fits-Adds, Kind, is_identity, is_write, is_keys, is_failure, is_add, kind,
  IsNumber, is_number, apply-IsNumber,
}

append_assoc : (a b c : NamedKeys) → append (append a b) c ≡ append a (append b c)
append_assoc a b c = fun_ext (λ n. go (a n) (b n) (c n))
  where
    go : (x y z : Option Key) → prefer (prefer x y) z ≡ prefer x (prefer y z)
    go x y none = refl
    go x y (some z) = refl

module _ {V : Type 0} where
  pub combine-identity_left : {b : Transform V} → Kind b → combine identity b ≡ b
  unfolding combine
  combine-identity_left is_identity = refl
  combine-identity_left (is_write v) = refl
  combine-identity_left (is_keys ks) = refl
  combine-identity_left (is_failure e) = refl
  combine-identity_left (is_add (int32 n r)) = refl
  combine-identity_left (is_add (uint64 n r)) = refl
  combine-identity_left (is_add (uint128 n r)) = refl
  combine-identity_left (is_add (uint256 n r)) = refl
  combine-identity_left (is_add (uint512 n r)) = refl

  pub combine-write_right :
      {a : Transform V}
      → Kind a
      → (v s s' : StoredValue V) → apply a s ≡ ok s'
      → combine a (write v) ≡ write v
  unfolding combine apply
  combine-write_right is_identity v s s' e = refl
  combine-write_right (is_write u) v s s' e = refl
  combine-write_right (is_keys ks) v s s' e = refl
  combine-write_right (is_failure x) v s s' e = ground arith
  combine-write_right (is_add (int32 n r)) v s s' e = refl
  combine-write_right (is_add (uint64 n r)) v s s' e = refl
  combine-write_right (is_add (uint128 n r)) v s s' e = refl
  combine-write_right (is_add (uint256 n r)) v s s' e = refl
  combine-write_right (is_add (uint512 n r)) v s s' e = refl

  pub combine-write_left :
      {b : Transform V} {w p : ℕ}
      → Adds b w p
      → (v : StoredValue V) → combine (write v) b ≡ written (apply b v)
  unfolding combine
  combine-write_left (int32 n r) v = refl
  combine-write_left (uint64 n r) v = refl
  combine-write_left (uint128 n r) v = refl
  combine-write_left (uint256 n r) v = refl
  combine-write_left (uint512 n r) v = refl

  append_keys-append :
      (ks more : NamedKeys) (s : StoredValue V)
      → append_keys (append ks more) s ≡ (append_keys ks s >>= append_keys more)
  unfolding append_keys
  append_keys-append ks more (cl_value v) = refl
  append_keys-append ks more (account a) =
      ap (λ k. ok (account (record a { named_keys = k }))) (sym (append_assoc a.named_keys ks more))
  append_keys-append ks more (contract c) =
      ap (λ k. ok (contract (record c { named_keys = k })))
        (sym (append_assoc c.named_keys ks more))

  number_after_number :
      {a b : Transform V} {w w' p q : ℕ}
      → Adds a w p
      → Adds b w' q
      → (t : NumType) (x : ℕ)
      → (apply a (cl_value (number t x)) >>= apply b)
        ≡ ok (cl_value (number t (((x + p) % modulus t + q) % modulus t)))
  number_after_number {b = b} {p = p} d d' t x =
      ap (λ r. r >>= apply b) (apply-number d t x) ∙ apply-number d' t ((x + p) % modulus t)

  two_additions :
      {a b : Transform V} {w w' p q : ℕ}
      → Adds a w p
      → Adds b w' q
      → (s s'' : StoredValue V) → IsNumber s
      → (apply a s >>= apply b) ≡ ok s''
      → fits (combine a b) s ≡ true
      → apply (combine a b) s ≡ ok s''
  two_additions {p = p} {q = q} d d' _ s'' (is_number t x) e f = elim (combine-AddsSum d d') [
    | sum_of w r z h ↦
        AddsSum-apply p q z h t x (fits-Adds z (cl_value (number t x)) f)
        ∙ sym (number_after_number d d' t x)
        ∙ e
    | mismatch h ↦ ground (arith, f, h)
  ]

  bind-ok :
      (a b : Transform V) (s s'' : StoredValue V)
      → (apply a s >>= apply b) ≡ ok s''
      → (s' : StoredValue V) × (apply a s ≡ ok s')
  bind-ok a b s s'' e = elim (Result-cases (apply a s)) [
    | inl (s', d) ↦ (s', d)
    | inr (x, d) ↦ ground (arith, d, e)
  ]

  IsNumber-eq :
      {s : StoredValue V} → IsNumber s → (t : NumType) × (x : ℕ) × (s ≡ cl_value (number t x))
  IsNumber-eq (is_number t x) = (t, x, refl)

  keys_fit_no_number :
      {b : Transform V} {w p : ℕ}
      → Adds b w p
      → (ks : NamedKeys) (s s'' : StoredValue V) → (append_keys ks s >>= apply b) ≢ ok s''
  unfolding append_keys
  keys_fit_no_number d ks (cl_value v) s'' e = ground arith
  keys_fit_no_number d ks (account a) s'' e =
      let (t, x, h) = IsNumber-eq (apply-IsNumber d (account (account_append ks a)) s'' e) in
      ground (arith, h)
  keys_fit_no_number d ks (contract c) s'' e =
      let (t, x, h) = IsNumber-eq (apply-IsNumber d (contract (contract_append ks c)) s'' e) in
      ground (arith, h)

  number_fits_no_keys :
      {a : Transform V} {w p : ℕ}
      → Adds a w p
      → (ks : NamedKeys) (s s'' : StoredValue V) → IsNumber s
      → (apply a s >>= append_keys ks) ≢ ok s''
  unfolding append_keys
  number_fits_no_keys {p = p} d ks _ s'' (is_number t x) e =
      let h = sym (ap (λ r. r >>= append_keys ks) (apply-number d t x)) ∙ e in ground (arith, h)

  pub combine-identity_right : (a : Transform V) → combine a identity ≡ a
  unfolding combine
  combine-identity_right a = refl

  apply-written :
      (r : Result Error (StoredValue V)) (s s'' : StoredValue V)
      → r ≡ ok s''
      → apply (written r) s ≡ ok s''
  unfolding apply
  apply-written r s s'' e = rw e refl

  kinds :
      {a b : Transform V}
      → Kind a
      → Kind b
      → (s s'' : StoredValue V) → (apply a s >>= apply b) ≡ ok s''
      → fits (combine a b) s ≡ true
      → apply (combine a b) s ≡ ok s''
  unfolding apply combine
  kinds {a} k is_identity s s'' e f =
      let (s', d) = bind-ok a identity s s'' e in
      ap (λ c. apply c s) (combine-identity_right a) ∙ ground (arith, d, e)
  kinds is_identity k s s'' e f = ap (λ c. apply c s) (combine-identity_left k) ∙ e
  kinds (is_failure x) k s s'' e f = ground arith
  kinds {a} k (is_failure x) s s'' e f =
      let (s', d) = bind-ok a (failure x) s s'' e in ground (arith, d, e)
  kinds {a} k (is_write v) s s'' e f =
      let (s', d) = bind-ok a (write v) s s'' e in
      ap (λ c. apply c s) (combine-write_right k v s s' d) ∙ ground (arith, d, e)
  kinds (is_write v) (is_keys ks) s s'' e f = apply-written (append_keys ks v) s s'' e
  kinds (is_write v) (is_add {a = b} d) s s'' e f =
      ap (λ c. apply c s) (combine-write_left d v) ∙ apply-written (apply b v) s s'' e
  kinds (is_keys ks) (is_keys more) s s'' e f = append_keys-append ks more s ∙ e
  kinds (is_keys ks) (is_add d) s s'' e f = absurd (keys_fit_no_number d ks s s'' e)
  kinds {a} (is_add d) (is_keys ks) s s'' e f =
      let (s', h) = bind-ok a (add_keys ks) s s'' e in
      absurd (number_fits_no_keys d ks s s'' (apply-IsNumber d s s' h) e)
  kinds {a} {b} (is_add d) (is_add d') s s'' e f =
      let (s', h) = bind-ok a b s s'' e in two_additions d d' s s'' (apply-IsNumber d s s' h) e f

  -- Where two transforms succeed one after the other, their sum succeeds with the same value,
  -- provided that the sum is no failure and adds no number to a wider one.
  pub apply-combine :
      (a b : Transform V) (s s'' : StoredValue V)
      → InRange a
      → InRange b
      → (apply a s >>= apply b) ≡ ok s''
      → fits (combine a b) s ≡ true
      → apply (combine a b) s ≡ ok s''
  apply-combine a b s s'' x y e f = kinds (kind a x) (kind b y) s s'' e f
