-- ===== src/TrackingCopy/Cache.antt =====
-- The cache of execution-engine/engine-core/src/tracking_copy/mod.rs. The map of the cached reads,
-- a `LinkedHashMap` of a library, is given by its operations; what they do to the entries, from the
-- oldest to the newest, is a hypothesis of the theorems.
use casper_labs.Base.{
  ℕ, zero, suc, ◌+◌, ◌-◌, ◌≡◌, Option, none, some, [], ◌∷◌, ◌++◌, length, ltb, if◌then◌else◌,
}
use casper_labs.Types.{Key}
use casper_labs.KeyMap.{KeyMap, find, put, without}

pub record LinkedHashMap (L A : Type 0) : Type 0 where
  pub empty : L
  pub len : L → ℕ
  pub insert : Key → A → L → L
  pub pop_front : L → Option (record { key : Key; value : A; rest : L })
  -- the map with the entry as the newest, and its value
  pub get_refresh : Key → L → L × Option A

-- The entries after `get_refresh`: the entry that is found becomes the newest.
abbrev pub refreshed : {A : Type 0} → Key → KeyMap A → Option A → KeyMap A
refreshed k m none = m
refreshed k m (some a) = without k m ++ (k, a) ∷ []

pub record IsLinkedHashMap {L A : Type 0} (map : LinkedHashMap L A) (entries : L → KeyMap A)
    : Type 0 where
  pub empties : entries map.empty ≡ []
  pub counts : (l : L) → map.len l ≡ length (entries l)
  pub inserts :
      (k : Key) (a : A) (l : L) → entries (map.insert k a l) ≡ without k (entries l) ++ (k, a) ∷ []
  pub pops_none : (l : L) → entries l ≡ [] → map.pop_front l ≡ none
  pub pops_some :
      (l : L) (k : Key) (a : A) (m : KeyMap A)
      → entries l ≡ (k, a) ∷ m
      → (l' : L) × (map.pop_front l ≡ some (record { key = k; value = a; rest = l' }))
        × (entries l' ≡ m)
  pub finds : (k : Key) (l : L) → (map.get_refresh k l).1 ≡ find k (entries l)
  pub refreshes :
      (k : Key) (l : L)
      → entries (map.get_refresh k l).0 ≡ refreshed k (entries l) (find k (entries l))

pub record TrackingCopyCache (L A : Type 0) : Type 0 where
  pub max_cache_size : ℕ
  pub current_cache_size : ℕ
  pub reads_cached : L
  pub muts_cached : KeyMap A

-- `meter` is `Meter::measure` of the cache's meter.
module _ {L A : Type 0} (map : LinkedHashMap L A) (meter : Key → A → ℕ) where
  -- The loop of `insert_read`, on fuel: the size and the reads that are left.
  unfoldable pub evict : ℕ → ℕ → ℕ → L → ℕ × L
  evict zero max size reads = (size, reads)
  evict (suc fuel) max size reads = elim (map.pop_front reads) [
    | none ↦ (size, reads)
    | some e ↦
        let rest = evict fuel max (size - meter e.key e.value) e.rest in
        if ltb max size then rest else (size, reads)
  ]

  -- The fuel is the number of entries.
  unfoldable pub insert_read : Key → A → TrackingCopyCache L A → TrackingCopyCache L A
  unfolding evict
  insert_read key value c =
      let reads = map.insert key value c.reads_cached in
      let (size, left) =
        evict (map.len reads) c.max_cache_size (c.current_cache_size + meter key value) reads in
      record c { current_cache_size = size; reads_cached = left }

  unfoldable pub insert_write : Key → A → TrackingCopyCache L A → TrackingCopyCache L A
  unfolding put
  insert_write key value c = record c { muts_cached = put key value c.muts_cached }

  unfoldable pub cache_get : Key → TrackingCopyCache L A → TrackingCopyCache L A × Option A
  unfolding find
  cache_get key c = elim (find key c.muts_cached) [
    | some value ↦ (c, some value)
    | none ↦
        let (reads, found) = map.get_refresh key c.reads_cached in
        (record c { reads_cached = reads }, found)
  ]
