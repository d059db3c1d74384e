-- ===== src/GlobalState/Tests.antt =====
-- A tracking copy over a state in memory, and the commit of its effects, at concrete inputs.
use Prim.Native.String.{String}
use casper_labs.Base.{ℕ, ◌≡◌, true, Option, none, some, [], Result, ok, ⊤, if◌then◌else◌}
use casper_labs.Types.{Key, hash}
use casper_labs.KeyMap.{KeyMap, key_eq}
use casper_labs.Values.{BytesreprError, u512, number, StoredValue, cl_value}
use casper_labs.TrackingCopy.{
  TrackingCopy, TrackingCopyCache, new, get, read, write_value, add_value,
}
use casper_labs.TrackingCopy.Linked.{linked, linked-IsLinkedHashMap}
use casper_labs.TrackingCopy.Overlay.{view, get-view, SameView}
use casper_labs.TrackingCopy.Session.{Session}
use casper_labs.GlobalState.{TrieStore}

abbrev State : Type 0
State = Key → Option (StoredValue ℕ)

abbrev memory : TrieStore State ℕ ⊤
memory = record {
  has_root = λ s. ok true;
  read_trie = λ k s. ok (s k);
  write_trie = λ k v s. ok (λ j. if key_eq j k then some v else s j);
}

abbrev no_named_key : ℕ → Option (Result BytesreprError (String × Key))
no_named_key v = none

abbrev size : Key → StoredValue ℕ → ℕ
size k v = 100

abbrev ten : StoredValue ℕ
ten = cl_value (number u512 10)

abbrev five : StoredValue ℕ
five = cl_value (number u512 5)

abbrev start : State
start k = if key_eq k (hash 1) then some ten else none

abbrev fresh : TrackingCopy (KeyMap (StoredValue ℕ)) ℕ ⊤
fresh = new linked (λ k. ok (start k))

-- The value under the first key is read and added to, the one under the second key is written.
abbrev used : TrackingCopy (KeyMap (StoredValue ℕ)) ℕ ⊤
used =
    write_value linked size (hash 2) five
      (add_value linked size no_named_key (hash 1) five (read linked size (hash 1) fresh).0).0

get-view_example :
    ((get linked size (hash 1) fresh).1 ≡ view fresh (hash 1))
    × SameView linked size (λ m. m) linked-IsLinkedHashMap fresh (get linked size (hash 1) fresh).0
unfolding linked
get-view_example = get-view linked size (λ m. m) linked-IsLinkedHashMap (hash 1) fresh tt

abbrev tiny : TrackingCopyCache (KeyMap (StoredValue ℕ)) (StoredValue ℕ)
tiny = record { max_cache_size = 150; current_cache_size = 0; reads_cached = []; muts_cached = [] }
