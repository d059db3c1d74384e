-- ===== src/TrackingCopy/Writes.antt =====
-- What a write to a tracking copy of execution-engine/engine-core/src/tracking_copy/mod.rs changes.
use casper_labs.Base.{ℕ, ◌≡◌, refl, Bool-cases, inl, inr, some, ok, if◌then◌else◌}
use casper_labs.Types.{Key, normalize}
use casper_labs.KeyMap.{key_eq}
use casper_labs.KeyMap.Lookup.{find-put}
use casper_labs.Values.{StoredValue}
use casper_labs.TrackingCopy.{LinkedHashMap, TrackingCopy, write_value}
use casper_labs.TrackingCopy.Overlay.{view}

-- After a write the tracking copy stands for the value under the normalized key, and for what it
-- stood for under every other key.
pub write_value-view :
    {L V E : Type 0} (map : LinkedHashMap L (StoredValue V)) (meter : Key → StoredValue V → ℕ)
    (k : Key) (v : StoredValue V) (tc : TrackingCopy L V E) (j : Key)
    → view (write_value map meter k v tc) j
      ≡ (if key_eq j (normalize k) then ok (some v) else view tc j)
unfolding write_value
write_value-view map meter k v tc j = elim (Bool-cases (key_eq j (normalize k))) [
  | inl same ↦ rw (find-put j (normalize k) v tc.cache.muts_cached, same) refl
  | inr other ↦ rw (find-put j (normalize k) v tc.cache.muts_cached, other) refl
]
