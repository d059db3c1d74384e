-- ===== src/GlobalState/Commit.antt =====
-- What a commit of execution-engine/engine-storage/src/global_state/mod.rs makes of the effects of a
-- tracking copy.
use Prim.Native.String.{String}
use casper_labs.Base.{◌≡◌, Option, none, some, Result, ok, if◌then◌else◌}
use casper_labs.Types.{Key}
use casper_labs.KeyMap.{KeyMap, key_eq, find}
use casper_labs.Values.{StoredValue}
use casper_labs.Transform.{Transform}
use casper_labs.TrackingCopy.{TrackingCopy}
use casper_labs.TrackingCopy.Recorded.{Recorded}
use casper_labs.TrackingCopy.Session.{Session}
use casper_labs.GlobalState.{TrieStore, new_value}

module _ {S V E : Type 0} (store : TrieStore S V E) where
  open store use {has_root, read_trie, write_trie}

  -- A store without failures of its own, whose writes change what is read under their key.
  pub record IsStore : Type 0 where
    pub reads : (k : Key) (s : S) → (o : Option (StoredValue V)) × (read_trie k s ≡ ok o)
    pub writes :
        (k : Key) (v : StoredValue V) (s : S)
        → (s' : S) × (write_trie k v s ≡ ok s')
          × ((j : Key) → read_trie j s' ≡ (if key_eq j k then ok (some v) else read_trie j s))

  -- The effect makes the value of what is read.
  abbrev Makes : Key → Transform V → Result E (Option (StoredValue V)) → StoredValue V → Type 0
  Makes k t r v = (o : Option (StoredValue V)) × (r ≡ ok o) × (new_value {S = S} k o t ≡ ok v)

  -- Under each key, the target is what the key's effect makes of the state, or is the state.
  abbrev Leads : KeyMap (Transform V) → S → (Key → Result E (Option (StoredValue V))) → Type 0
  Leads m s target =
      ((k : Key) (t : Transform V)
        → find k m ≡ some t
        → (v : StoredValue V) × (target k ≡ ok (some v)) × Makes k t (read_trie k s) v)
      × ((k : Key) → find k m ≡ none → target k ≡ read_trie k s)
