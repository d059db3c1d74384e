-- ===== src/Trie/Tests.antt =====
-- Writes to a small trie and reads from it.
use casper_labs.Base.{
  ◌++◌, ℕ, ◌^◌, ◌<◌, ◌≡◌, refl, ap, ◌∙◌, Option, none, some, List, [], ◌∷◌, inl, inr, length, ok,
  err, ◌==◌, ==_iff, if◌then◌else◌, All, ⊤, arith,
}
use mathlib.Core.Path.{subst}
use casper_labs.Bytes.{Bytes}
use casper_labs.Bytes.Numbers.{array_codec, u8_codec, fixed_codec}
use casper_labs.Bytes.Containers.{array_of_codec, option_codec}
use casper_labs.Trie.Encoding.{trie_codec, pointer_block_codec, pointer_codec}
use casper_labs.Bytes.Integers.{array_codec-RoundTrips, u8_codec-RoundTrips}
use casper_labs.Trie.{PointerBlock, leaf, leaf_pointer, slot, set_slot, empty_block, Trie, node}
use casper_labs.Trie.Operations.{
  Elements, TrieStore, found, read, write, new_elements, scan_loop, trie_hash,
}
use casper_labs.Trie.Reading.{child, at_key, IsTrieStore, Reads, no_child}
use casper_labs.Trie.Rebuild.{Runs, Uncollided}
use casper_labs.Trie.Prefixes.{NotPrefix, ok_same}
use casper_labs.Trie.Shape.{IsElements, Shaped, shaped_node}
use casper_labs.Trie.Blocks.{slot-set_slot, slot-empty_block, length-empty_block}
use casper_labs.Types.{Key, account, hash}
use casper_labs.Bytes.Shared.{key_codec}
use casper_labs.Trie.Keys.{key_paths}
use casper_labs.Trie.EncodingLaws.{trie_codec_round_trip}
use casper_labs.Trie.Written.{
  read-Reads, Comparable, write-Shaped, root_after, write-read, write-read_other, write-read_before,
  NoCollision,
}

-- Keys of two bytes, values of one, and a hash that tells the elements of the test from each other
abbrev small : Elements ℕ ℕ
small = record {
  key = array_codec 2;
  value = u8_codec;
  key_eq = λ a b. a == b;
  value_eq = λ a b. a == b;
  blake2b = λ bytes. length bytes;
}

abbrev Memory : Type 0
Memory = List (ℕ × Trie ℕ ℕ)

abbrev held : Memory → ℕ → Option (Trie ℕ ℕ)
held [] h = none
held ((j, t) ∷ s) h = if h == j then some t else held s h

abbrev memory : TrieStore ℕ ℕ Memory ⊤
memory = record {
  get = λ h s. ok (held s h);
  put = λ h t s. ok ((h, t) ∷ s);
  from_bytesrepr = λ e. tt;
}

memory-IsTrieStore : IsTrieStore memory held
memory-IsTrieStore = record { gets = λ h s. refl; puts = λ h t s. ((h, t) ∷ s, refl, λ j. refl) }

abbrev Small : ℕ → Type 0
Small a = a < 256 ^ 2

small_bytes :
    (k : ℕ) (path : Bytes)
    → Small k
    → (array_codec 2).to_bytes k ≡ ok path
    → All (λ b. b < 256) path
unfolding array_codec
small_bytes k path lt e =
    subst (All (λ b. b < 256)) (ok_same ((array_codec 2).to_bytes k) refl e)
      (omega arith, (omega arith, tt))

small-IsElements : IsElements small Small
small-IsElements = record {
  keys_read = array_codec-RoundTrips 2;
  keys_bytes = small_bytes;
  key_eq_sound = λ a b h. (==_iff a b).0 h;
  key_eq_refl = λ a. (==_iff a a).1 refl;
  value_eq_sound = λ a b h. (==_iff a b).0 h;
}

abbrev start : Memory
start = (0, node empty_block) ∷ []

start-Shaped : Shaped small Small (held start) [] (node empty_block)
start-Shaped =
    shaped_node [] empty_block length-empty_block
      (λ i p e. absurd (ground (arith, e, slot-empty_block i)))
      (λ i p t e l. absurd (ground (arith, e, slot-empty_block i)))

start-Reads :
    (k i : ℕ) (path : Bytes) → Reads small (held start) k (node empty_block) (i ∷ path) none
start-Reads k i path = no_child empty_block i path (slot-empty_block i)

-- The elements that the first write makes: a leaf, and the root with a pointer to it.
abbrev first_elements : List (ℕ × Trie ℕ ℕ)
first_elements = elim (new_elements small memory (1 ∷ 2 ∷ []) 258 7 (node empty_block) []) [
  | ok es ↦ es
  | err e ↦ []
]

start-NoCollision :
    NoCollision small memory Small small-IsElements held memory-IsTrieStore 258 7 start empty_block
      (1 ∷ 2 ∷ [])
unfolding scan_loop new_elements slot empty_block trie_hash trie_codec array_codec u8_codec
    fixed_codec pointer_block_codec array_of_codec set_slot option_codec pointer_codec
start-NoCollision tip parents es scanned made =
    let scan = scan_loop small memory 3 (node empty_block) (1 ∷ 2 ∷ []) [] start in
    let at : (node empty_block, []) ≡ (tip, parents) = ok_same scan refl scanned in
    let made' = ap (λ x. new_elements small memory (1 ∷ 2 ∷ []) 258 7 x.0 x.1) at ∙ made in
    let these : first_elements ≡ es =
      ok_same (new_elements small memory (1 ∷ 2 ∷ []) 258 7 (node empty_block) []) refl made' in
    subst (Uncollided (held start)) these (inl refl, (inl refl, tt))

write-read_example :
    Runs
      (write small memory 0 258 7 start)
      (λ (w, s). read small memory (root_after 0 w) 258 s ≡ ok (found 7))
unfolding array_codec
write-read_example =
    write-read small memory Small small-IsElements held memory-IsTrieStore 0 258 7 start empty_block
      (1 ∷ 2 ∷ []) none (omega arith) refl refl start-Shaped (start-Reads 258 1 (2 ∷ []))
      start-NoCollision

write-read_other_example :
    Runs
      (write small memory 0 258 7 start)
      (λ (w, s). read small memory (root_after 0 w) 259 s ≡ read small memory 0 259 start)
unfolding array_codec
write-read_other_example =
    write-read_other small memory Small small-IsElements held memory-IsTrieStore 0 258 7 start
      empty_block (1 ∷ 2 ∷ []) none (omega arith) refl refl start-Shaped
      (start-Reads 258 1 (2 ∷ [])) start-NoCollision 259 (1 ∷ 3 ∷ []) none (omega arith) refl
      (λ e. absurd (omega (arith, e))) (inr (omega arith)) (start-Reads 259 1 (3 ∷ []))

write-read_before_example :
    Runs
      (write small memory 0 258 7 start)
      (λ (w, s). read small memory 0 258 s ≡ read small memory 0 258 start)
unfolding array_codec
write-read_before_example =
    write-read_before small memory Small small-IsElements held memory-IsTrieStore 0 258 7 start
      empty_block (1 ∷ 2 ∷ []) none (omega arith) refl refl start-Shaped
      (start-Reads 258 1 (2 ∷ [])) start-NoCollision 258 (1 ∷ 2 ∷ []) none refl
      (start-Reads 258 1 (2 ∷ []))

write-Shaped_example : Runs (write small memory 0 258 7 start) (λ (w, s).
    (block : PointerBlock) × (held s (root_after 0 w) ≡ some (node block))
    × Shaped small Small (held s) [] (node block))
unfolding array_codec
write-Shaped_example =
    write-Shaped small memory Small small-IsElements held memory-IsTrieStore 0 258 7 start
      empty_block (1 ∷ 2 ∷ []) none (omega arith) refl refl start-Shaped
      (start-Reads 258 1 (2 ∷ [])) start-NoCollision

-- A leaf under its slot
abbrev one_leaf : Memory
one_leaf = (0, node (set_slot empty_block 1 (leaf_pointer 7))) ∷ (7, leaf 258 9) ∷ []

read-Reads_example : read small memory 0 258 one_leaf ≡ ok (found 9)
unfolding array_codec
read-Reads_example =
    read-Reads small memory Small small-IsElements held memory-IsTrieStore 0 258 one_leaf
      (node (set_slot empty_block 1 (leaf_pointer 7))) (1 ∷ 2 ∷ []) (some 9) refl refl
      (child (set_slot empty_block 1 (leaf_pointer 7)) 1 (2 ∷ []) (leaf_pointer 7) (leaf 258 9)
        (some 9) (slot-set_slot empty_block 1 (leaf_pointer 7) (omega (arith, length-empty_block)))
        refl (at_key 258 9 (2 ∷ []) refl))

abbrev leaf_bytes : Bytes
leaf_bytes = 0 ∷ 0 ∷ 0 ∷ 0 ∷ 1 ∷ 2 ∷ 9 ∷ []

trie_codec_round_trip_example :
    (trie_codec (array_codec 2) u8_codec).from_bytes (leaf_bytes ++ 5 ∷ [])
    ≡ ok (leaf 258 9, 5 ∷ [])
unfolding trie_codec array_codec u8_codec fixed_codec
trie_codec_round_trip_example =
    trie_codec_round_trip (array_codec 2) u8_codec (array_codec-RoundTrips 2) u8_codec-RoundTrips
      (leaf 258 9) leaf_bytes (5 ∷ []) (omega arith, tt) refl

abbrev path_of : Key → Bytes
path_of k = elim (key_codec.to_bytes k) [ ok path ↦ path | err _ ↦ [] ]

key_paths_example :
    NotPrefix (path_of (account 4)) (path_of (hash 4))
    × Comparable (path_of (account 4)) (path_of (hash 4))
unfolding key_codec array_codec
key_paths_example =
    key_paths (account 4) (hash 4) (path_of (account 4)) (path_of (hash 4)) (omega arith)
      (omega arith) (λ e. absurd (ground (arith, e))) refl refl
