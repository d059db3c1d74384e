-- ===== src/TrackingCopy/Opened.antt =====
-- The underlying state and the beginning of a tracking copy of
-- execution-engine/engine-core/src/tracking_copy/mod.rs.
use Prim.Native.String.{String}
use casper_labs.Base.{
  ℕ, ◌∙◌, Result-cases, inl, inr, ◌≡◌, refl, Option, none, some, Result, ok, err,
}
use casper_labs.Types.{Key, normalize}
use casper_labs.KeyMap.{KeyMap, find}
use casper_labs.Values.{BytesreprError, StoredValue}
use casper_labs.Transform.{Transform, apply}
use casper_labs.TrackingCopy.{
  LinkedHashMap, IsLinkedHashMap, TrackingCopy, AddResult, get, read, write_value, add_value,
  add_after, add_transform, new, read_after, transform_of,
}
use casper_labs.TrackingCopy.Effects.{untouched}
use casper_labs.TrackingCopy.Recorded.{IsRecorded, get-IsRecorded}
use casper_labs.TrackingCopy.Session.{Session, opened, reads, writes, adds, Session-IsRecorded}

module _ {L V E : Type 0} (map : LinkedHashMap L (StoredValue V))
    (meter : Key → StoredValue V → ℕ) where
  read_after-reader :
      (k : Key) (p : TrackingCopy L V E × Result E (Option (StoredValue V)))
      → (read_after map meter k p).0.reader ≡ p.0.reader
  unfolding read_after
  read_after-reader k (tc, ok (some v)) = refl
  read_after-reader k (tc, ok none) = refl
  read_after-reader k (tc, err x) = refl

  add_after-reader :
      (k : Key) (a : Result AddResult (Transform V))
      (p : TrackingCopy L V E × Result E (Option (StoredValue V)))
      → (add_after map meter k a p).0.reader ≡ p.0.reader
  unfolding add_after
  add_after-reader k a (tc, err x) = refl
  add_after-reader k a (tc, ok none) = refl
  add_after-reader k (err x) (tc, ok (some u)) = refl
  add_after-reader k (ok t) (tc, ok (some u)) = elim (Result-cases (apply t u)) [
    | inl (w, done) ↦ rw (add_transform, done) refl
    | inr (x, failed) ↦ rw (add_transform, failed) refl
  ]

  write_value-reader :
      (k : Key) (v : StoredValue V) (tc : TrackingCopy L V E)
      → (write_value map meter k v tc).reader ≡ tc.reader
  unfolding write_value
  write_value-reader k v tc = refl

module _ {L V E : Type 0} (map : LinkedHashMap L (StoredValue V)) (meter : Key → StoredValue V → ℕ)
    (named_key : V → Option (Result BytesreprError (String × Key)))
    (entries : L → KeyMap (StoredValue V)) (law : IsLinkedHashMap map entries) where
  -- No operation changes the underlying state.
  pub Session-reader :
      {tc tc' : TrackingCopy L V E}
      → IsRecorded map meter entries law tc
      → Session map meter named_key tc tc'
      → tc'.reader ≡ tc.reader
  unfolding read add_value
  Session-reader h opened = refl
  Session-reader h (reads {u} s k) =
      let (_, _, same, _) =
        get-IsRecorded map meter entries law (normalize k) u
          (Session-IsRecorded map meter named_key entries law h s) in
      read_after-reader map meter (normalize k) (get map meter (normalize k) u)
      ∙ same
      ∙ Session-reader h s
  Session-reader h (writes {u} s k v) = write_value-reader map meter k v u ∙ Session-reader h s
  Session-reader h (adds {u} s k v r fit) =
      let (_, _, same, _) =
        get-IsRecorded map meter entries law (normalize k) u
          (Session-IsRecorded map meter named_key entries law h s) in
      add_after-reader map meter (normalize k) (transform_of named_key v)
        (get map meter (normalize k) u)
      ∙ same
      ∙ Session-reader h s

  pub new-IsRecorded :
      (reader : Key → Result E (Option (StoredValue V)))
      → IsRecorded map meter entries law (new map reader)
  unfolding find
  new-IsRecorded reader = record {
    faithful = rw law.empties tt;
    recorded = λ k. untouched;
    distinct = tt;
  }
