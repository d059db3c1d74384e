-- ===== src/TrackingCopy/Overlay.antt =====
-- What `get` of execution-engine/engine-core/src/tracking_copy/mod.rs returns.
use mathlib.Core.Path.{subst}
use casper_labs.Base.{
  ℕ, ◌≡◌, refl, sym, Option, none, some, Option-cases, Result, ok, Result-cases, inl, inr,
}
use casper_labs.Types.{Key}
use casper_labs.KeyMap.{KeyMap, find}
use casper_labs.Values.{StoredValue}
use casper_labs.TrackingCopy.{
  LinkedHashMap, IsLinkedHashMap, TrackingCopy, cache_get, get_from_reader, get_after, get,
}
use casper_labs.TrackingCopy.Reads.{
  Faithful, Faithful-find, Faithful-refreshed, insert_read-Faithful, insert_read-muts,
}

abbrev pub or_read : {E A : Type 0} → Option A → Result E (Option A) → Result E (Option A)
or_read (some value) r = ok (some value)
or_read none r = r

module _ {L V E : Type 0} where
  -- The state that a tracking copy stands for.
  abbrev pub view : TrackingCopy L V E → Key → Result E (Option (StoredValue V))
  view tc k = or_read (find k tc.cache.muts_cached) (tc.reader k)

module _ {L V E : Type 0} (map : LinkedHashMap L (StoredValue V)) (meter : Key → StoredValue V → ℕ)
    (entries : L → KeyMap (StoredValue V)) (law : IsLinkedHashMap map entries) where
  -- The cached reads agree with the reader.
  abbrev pub IsFaithful : TrackingCopy L V E → Type 0
  IsFaithful tc = Faithful tc.reader (entries tc.cache.reads_cached)

  -- The tracking copies that differ in their cached reads only.
  pub record SameView (tc tc' : TrackingCopy L V E) : Type 0 where
    pub same_reader : tc'.reader ≡ tc.reader
    pub same_muts : tc'.cache.muts_cached ≡ tc.cache.muts_cached
    pub same_ops : tc'.ops ≡ tc.ops
    pub same_fns : tc'.fns ≡ tc.fns
    pub faithful : IsFaithful tc'

  SameView-self : (tc : TrackingCopy L V E) → IsFaithful tc → SameView tc tc
  SameView-self tc h = record {
    same_reader = refl;
    same_muts = refl;
    same_ops = refl;
    same_fns = refl;
    faithful = h;
  }

  get_from_reader-lem :
      (k : Key) (tc : TrackingCopy L V E)
      → IsFaithful tc
      → ((get_from_reader map meter k tc).1 ≡ tc.reader k)
        × SameView tc (get_from_reader map meter k tc).0
  unfolding get_from_reader
  get_from_reader-lem k tc h = elim (Result-cases (tc.reader k)) [
    | inl (none, e) ↦ rw (get_from_reader, e) (refl, SameView-self tc h)
    | inl (some v, e) ↦
        rw (get_from_reader, e)
          (
            refl,
            record {
              same_reader = refl;
              same_muts = insert_read-muts map meter entries law k v tc.cache;
              same_ops = refl;
              same_fns = refl;
              faithful = insert_read-Faithful map meter entries law tc.reader k v tc.cache h e;
            },
          )
    | inr (x, e) ↦ rw (get_from_reader, e) (refl, SameView-self tc h)
  ]

  -- The tracking copy whose reads have been touched by a lookup.
  abbrev touched : Key → TrackingCopy L V E → TrackingCopy L V E
  touched k tc = record tc {
    cache = record tc.cache { reads_cached = (map.get_refresh k tc.cache.reads_cached).0 };
  }

  touched-IsFaithful :
      (k : Key) (tc : TrackingCopy L V E) → IsFaithful tc → IsFaithful (touched k tc)
  touched-IsFaithful k tc h =
      subst (Faithful tc.reader) (sym (law.refreshes k tc.cache.reads_cached))
        (Faithful-refreshed tc.reader k (entries tc.cache.reads_cached) h)

  SameView-touched :
      (k : Key) (tc tc' : TrackingCopy L V E) → SameView (touched k tc) tc' → SameView tc tc'
  SameView-touched k tc tc' s = record {
    same_reader = s.same_reader;
    same_muts = s.same_muts;
    same_ops = s.same_ops;
    same_fns = s.same_fns;
    faithful = s.faithful;
  }

  cache_get-miss :
      (k : Key) (tc : TrackingCopy L V E)
      → find k tc.cache.muts_cached ≡ none
      → cache_get map meter k tc.cache
        ≡ ((touched k tc).cache, find k (entries tc.cache.reads_cached))
  unfolding cache_get
  cache_get-miss k tc e = rw (cache_get, e, law.finds k tc.cache.reads_cached) refl

  get_after_miss :
      (k : Key) (tc : TrackingCopy L V E)
      → IsFaithful tc
      → find k tc.cache.muts_cached ≡ none
      → (o : Option (StoredValue V)) → find k (entries tc.cache.reads_cached) ≡ o
      → ((get_after map meter k tc ((touched k tc).cache, o)).1 ≡ view tc k)
        × SameView tc (get_after map meter k tc ((touched k tc).cache, o)).0
  unfolding get_after
  get_after_miss k tc h e (some v) f = rw e (
    sym (Faithful-find tc.reader k v (entries tc.cache.reads_cached) h f),
    SameView-touched k tc (touched k tc) (SameView-self (touched k tc) (touched-IsFaithful k tc h)),
  )
  get_after_miss k tc h e none f =
      let (r, s) = get_from_reader-lem k (touched k tc) (touched-IsFaithful k tc h) in
      rw e (r, SameView-touched k tc (get_from_reader map meter k (touched k tc)).0 s)

  -- Whatever the cache holds, `get` returns what the tracking copy stands for, changes nothing of
  -- it, and keeps the cached reads in agreement with the underlying state.
  pub get-view :
      (k : Key) (tc : TrackingCopy L V E)
      → IsFaithful tc
      → ((get map meter k tc).1 ≡ view tc k) × SameView tc (get map meter k tc).0
  unfolding get
  get-view k tc h = elim (Option-cases (find k tc.cache.muts_cached)) [
    | inr (v, e) ↦ rw (get, cache_get, e) (refl, SameView-self tc h)
    | inl e ↦
        rw (cache_get-miss k tc e)
          (get_after_miss k tc h e (find k (entries tc.cache.reads_cached)) refl)
  ]
