-- ===== src/TrackingCopy/Recorded.antt =====
-- The operations of a tracking copy of execution-engine/engine-core/src/tracking_copy/mod.rs, each
-- with the effects that it records.
use mathlib.Core.Path.{subst}
use casper_labs.Base.{
  ℕ, ◌≡◌, refl, sym, ◌∙◌, true, Bool-cases, Option, none, some, Result, ok, err, Result-cases, inl,
  inr,
}
use casper_labs.Types.{Key, normalize}
use casper_labs.KeyMap.{KeyMap, key_eq, find, put, value_or, insert_add, Distinct}
use casper_labs.KeyMap.Lookup.{key_eq→eq, key_eq_refl, find-put, put-Distinct}
use casper_labs.Values.{StoredValue}
use casper_labs.Transform.{Transform, identity, write, apply, combine}
use casper_labs.Transform.Fits.{fits}
use casper_labs.TrackingCopy.{
  LinkedHashMap, IsLinkedHashMap, TrackingCopy, get, read, read_after, write_value, add_transform,
}
use casper_labs.TrackingCopy.Overlay.{view, IsFaithful, SameView, get-view}
use casper_labs.TrackingCopy.Effects.{IsAddition, Records, Records-read, Records-write, Records-add}

module _ {V E : Type 0} (reader : Key → Result E (Option (StoredValue V))) where
  abbrev pub Recorded : KeyMap (StoredValue V) → KeyMap (Transform V) → Type 0
  Recorded muts fns = (k : Key) → Records (reader k) (find k muts) (find k fns)

  Recorded-effect :
      (k : Key) (t : Transform V) (muts : KeyMap (StoredValue V)) (fns : KeyMap (Transform V))
      → Recorded muts fns
      → Records (reader k) (find k muts) (some (combine (value_or identity (find k fns)) t))
      → Recorded muts (insert_add combine identity k t fns)
  unfolding insert_add
  Recorded-effect k t muts fns h x j = elim (Bool-cases (key_eq j k)) [
    | inl same ↦
        subst (λ i. Records (reader i) (find i muts) (find i (insert_add combine identity k t fns)))
          (sym (key_eq→eq j k same))
          (rw
            (
              insert_add,
              find-put k k (combine (value_or identity (find k fns)) t) fns,
              key_eq_refl k,
            )
            x)
    | inr other ↦
        rw (insert_add, find-put j k (combine (value_or identity (find k fns)) t) fns, other) (h j)
  ]

  Recorded-change :
      (k : Key) (v : StoredValue V) (t : Transform V) (muts : KeyMap (StoredValue V))
      (fns : KeyMap (Transform V))
      → Recorded muts fns
      → Records (reader k) (some v) (some (combine (value_or identity (find k fns)) t))
      → Recorded (put k v muts) (insert_add combine identity k t fns)
  unfolding insert_add
  Recorded-change k v t muts fns h x j = elim (Bool-cases (key_eq j k)) [
    | inl same ↦
        subst
          (λ i.
            Records (reader i) (find i (put k v muts))
              (find i (insert_add combine identity k t fns)))
          (sym (key_eq→eq j k same))
          (rw
            (
              insert_add,
              find-put k k v muts,
              find-put k k (combine (value_or identity (find k fns)) t) fns,
              key_eq_refl k,
            )
            x)
    | inr other ↦
        rw
          (
            insert_add,
            find-put j k v muts,
            find-put j k (combine (value_or identity (find k fns)) t) fns,
            other,
          )
          (h j)
  ]

insert_add-Distinct :
    {V : Type 0} (k : Key) (t : Transform V) (fns : KeyMap (Transform V))
    → Distinct fns
    → Distinct (insert_add combine identity k t fns)
unfolding insert_add
insert_add-Distinct k t fns h = put-Distinct k (combine (value_or identity (find k fns)) t) fns h

module _ {L V E : Type 0} (map : LinkedHashMap L (StoredValue V)) (meter : Key → StoredValue V → ℕ)
    (entries : L → KeyMap (StoredValue V)) (law : IsLinkedHashMap map entries) where
  -- The cached reads agree with the underlying state, for every key the effect agrees with the
  -- cached mutation, and no key has two effects.
  pub record IsRecorded (tc : TrackingCopy L V E) : Type 0 where
    pub faithful : IsFaithful map meter entries law tc
    pub recorded : Recorded tc.reader tc.cache.muts_cached tc.fns
    pub distinct : Distinct tc.fns

  SameView-IsRecorded :
      (tc tc' : TrackingCopy L V E)
      → SameView map meter entries law tc tc'
      → IsRecorded tc
      → IsRecorded tc'
  SameView-IsRecorded tc tc' s h = record {
    faithful = s.faithful;
    recorded = λ k. rw (s.same_reader, s.same_muts, s.same_fns) (h.recorded k);
    distinct = rw s.same_fns h.distinct;
  }

  SameView-view :
      (tc tc' : TrackingCopy L V E) (k : Key)
      → SameView map meter entries law tc tc'
      → view tc' k ≡ view tc k
  SameView-view tc tc' k s = rw (s.same_reader, s.same_muts) refl

  -- What `get` leaves, and what it returns.
  pub get-IsRecorded :
      (k : Key) (tc : TrackingCopy L V E)
      → IsRecorded tc
      → IsRecorded (get map meter k tc).0
        × ((get map meter k tc).1 ≡ view (get map meter k tc).0 k)
        × ((get map meter k tc).0.reader ≡ tc.reader)
        × ((get map meter k tc).0.fns ≡ tc.fns)
  get-IsRecorded k tc h =
      let (r, s) = get-view map meter entries law k tc h.faithful in
      (
        SameView-IsRecorded tc (get map meter k tc).0 s h,
        r ∙ sym (SameView-view tc (get map meter k tc).0 k s),
        s.same_reader,
        s.same_fns,
      )

  read_after-IsRecorded :
      (k : Key) (p : TrackingCopy L V E × Result E (Option (StoredValue V)))
      → IsRecorded p.0
      → p.1 ≡ view p.0 k
      → IsRecorded (read_after map meter k p).0
  unfolding read_after
  read_after-IsRecorded k (tc, ok (some v)) h e = record {
    faithful = h.faithful;
    recorded =
        Recorded-effect tc.reader k identity tc.cache.muts_cached tc.fns h.recorded
          (Records-read (h.recorded k) v (sym e));
    distinct = insert_add-Distinct k identity tc.fns h.distinct;
  }
  read_after-IsRecorded k (tc, ok none) h e = h
  read_after-IsRecorded k (tc, err x) h e = h

  pub read-IsRecorded :
      (k : Key) (tc : TrackingCopy L V E) → IsRecorded tc → IsRecorded (read map meter k tc).0
  unfolding read
  read-IsRecorded k tc h =
      let (g, e, _, _) = get-IsRecorded (normalize k) tc h in
      read_after-IsRecorded (normalize k) (get map meter (normalize k) tc) g e

  pub write_value-IsRecorded :
      (k : Key) (v : StoredValue V) (tc : TrackingCopy L V E)
      → IsRecorded tc
      → IsRecorded (write_value map meter k v tc)
  unfolding write_value
  write_value-IsRecorded k v tc h = record {
    faithful = h.faithful;
    recorded =
        Recorded-change tc.reader (normalize k) v (write v) tc.cache.muts_cached tc.fns h.recorded
          (Records-write (h.recorded (normalize k)) v);
    distinct = insert_add-Distinct (normalize k) (write v) tc.fns h.distinct;
  }

  pub add_transform-IsRecorded :
      (k : Key) (t : Transform V) (v : StoredValue V) (tc : TrackingCopy L V E)
      → IsRecorded tc
      → IsAddition t
      → view tc k ≡ ok (some v)
      → ((b : StoredValue V)
          → tc.reader k ≡ ok (some b)
          → fits (combine (value_or identity (find k tc.fns)) t) b ≡ true)
      → IsRecorded (add_transform map meter k t v tc).0
  unfolding add_transform
  add_transform-IsRecorded k t v tc h d e fit = elim (Result-cases (apply t v)) [
    | inl (w, done) ↦
        rw (add_transform, done)
          (record {
            faithful = h.faithful;
            recorded =
                Recorded-change tc.reader k w t tc.cache.muts_cached tc.fns h.recorded
                  (Records-add (h.recorded k) d v w e done fit);
            distinct = insert_add-Distinct k t tc.fns h.distinct;
          })
    | inr (x, failed) ↦ rw (add_transform, failed) h
  ]
