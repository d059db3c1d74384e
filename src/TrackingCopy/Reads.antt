-- ===== src/TrackingCopy/Reads.antt =====
-- The cached reads of execution-engine/engine-core/src/tracking_copy/mod.rs, beside the underlying
-- state, and what the cache evicts.
use casper_labs.Base.{
  ℕ, zero, suc, ◌+◌, ◌-◌, ◌≡◌, refl, sym, ap, ◌∙◌, Bool-cases, Option, some, Option-cases, [], ◌∷◌,
  ◌++◌, Result, ok, ⊤, ◌⊎◌, inl, inr, arith, ltb,
}
use mathlib.Core.Path.{subst}
use casper_labs.Types.{Key}
use casper_labs.KeyMap.{KeyMap, key_eq, find, without}
use casper_labs.KeyMap.Lookup.{key_eq→eq}
use casper_labs.TrackingCopy.{
  LinkedHashMap, IsLinkedHashMap, refreshed, TrackingCopyCache, evict, insert_read,
}

module _ {A E : Type 0} (reader : Key → Result E (Option A)) where
  -- Each entry is what the reader finds under its key.
  abbrev pub Faithful : KeyMap A → Type 0
  Faithful [] = ⊤
  Faithful ((k, a) ∷ m) = (reader k ≡ ok (some a)) × Faithful m

  pub Faithful-find :
      (k : Key) (a : A) (m : KeyMap A) → Faithful m → find k m ≡ some a → reader k ≡ ok (some a)
  unfolding find
  Faithful-find k a [] h e = ground arith
  Faithful-find k a ((j, b) ∷ m) h e = elim (Bool-cases (key_eq k j)) [
    | inl same ↦ ap reader (key_eq→eq k j same) ∙ ground (arith, same)
    | inr other ↦ Faithful-find k a m h.1 (ground (arith, other))
  ]

  pub Faithful-without : (k : Key) (m : KeyMap A) → Faithful m → Faithful (without k m)
  unfolding without
  Faithful-without k [] h = tt
  Faithful-without k ((j, b) ∷ m) h = elim (Bool-cases (key_eq k j)) [
    | inl same ↦ ground (arith, same, Faithful-without k m h.1)
    | inr other ↦ ground (arith, other, Faithful-without k m h.1)
  ]

  pub Faithful-append :
      (k : Key) (a : A) (m : KeyMap A)
      → Faithful m
      → reader k ≡ ok (some a)
      → Faithful (m ++ (k, a) ∷ [])
  Faithful-append k a [] h e = (e, tt)
  Faithful-append k a ((j, b) ∷ m) h e = (h.0, Faithful-append k a m h.1 e)

  pub Faithful-refreshed :
      (k : Key) (m : KeyMap A) → Faithful m → Faithful (refreshed k m (find k m))
  Faithful-refreshed k m h = elim (Option-cases (find k m)) [
    | inl gone ↦ rw gone h
    | inr (a, here) ↦
        rw here
          (Faithful-append k a (without k m) (Faithful-without k m h) (Faithful-find k a m h here))
  ]

KeyMap-cases :
    {A : Type 0} (m : KeyMap A)
    → (m ≡ []) ⊎ ((k : Key) × (a : A) × (rest : KeyMap A) × (m ≡ (k, a) ∷ rest))
KeyMap-cases [] = inl refl
KeyMap-cases ((k, a) ∷ m) = inr (k, a, m, refl)

module _ {L A : Type 0} (map : LinkedHashMap L A) (meter : Key → A → ℕ) (entries : L → KeyMap A)
    (law : IsLinkedHashMap map entries) where
  -- What holds of the entries, and of every tail of what it holds of, holds of what is left.
  evict-keeps :
      (P : KeyMap A → Type 0)
      → ((k : Key) (a : A) (m : KeyMap A) → P ((k, a) ∷ m) → P m)
      → (fuel max size : ℕ) (l : L) → P (entries l)
      → P (entries (evict map meter fuel max size l).1)
  unfolding evict
  evict-keeps P tail zero max size l h = h
  evict-keeps P tail (suc fuel) max size l h = elim (KeyMap-cases (entries l)) [
    | inl e ↦ rw (evict, law.pops_none l e) h
    | inr (k, a, m, e) ↦
        let (l', p, q) = law.pops_some l k a m e in
        let rest =
          evict-keeps P tail fuel max (size - meter k a) l'
            (subst P (sym q) (tail k a m (subst P e h))) in
        elim (Bool-cases (ltb max size)) [
          | inl over ↦ rw (evict, p, over) rest
          | inr fits ↦ rw (evict, p, fits) h
        ]
  ]

  pub insert_read-Faithful :
      {E : Type 0} (reader : Key → Result E (Option A)) (k : Key) (a : A)
      (c : TrackingCopyCache L A)
      → Faithful reader (entries c.reads_cached)
      → reader k ≡ ok (some a)
      → Faithful reader (entries (insert_read map meter k a c).reads_cached)
  unfolding insert_read
  insert_read-Faithful reader k a c h e =
      let reads = map.insert k a c.reads_cached in
      evict-keeps (Faithful reader) (λ k a m h. h.1) (map.len reads) c.max_cache_size
        (c.current_cache_size + meter k a) reads
        (subst (Faithful reader) (sym (law.inserts k a c.reads_cached)) (
          Faithful-append reader k a (without k (entries c.reads_cached))
            (Faithful-without reader k (entries c.reads_cached) h) e))

  pub insert_read-muts :
      (k : Key) (a : A) (c : TrackingCopyCache L A)
      → (insert_read map meter k a c).muts_cached ≡ c.muts_cached
  unfolding insert_read
  insert_read-muts k a c = refl
