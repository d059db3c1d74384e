-- ===== src/Trie/Reading.antt =====
-- What a trie holds for a key, and `read` of
-- execution-engine/engine-storage/src/trie_store/operations/mod.rs.
use casper_labs.Base.{
  ℕ, zero, suc, ◌≤◌, ◌<◌, ◌≡◌, refl, ap, ◌∙◌, true, false, Option, none, some, List, [], ◌∷◌, ◌++◌,
  length, length-append, ok, ◌==◌, if◌then◌else◌, arith,
}
use casper_labs.Bytes.{Bytes, take, drop}
use casper_labs.Bytes.Laws.{take-append, drop-append}
use casper_labs.Trie.{Pointer, pointer_hash, slot, Trie, leaf, node, extension}
use casper_labs.Trie.Operations.{Elements, TrieStore, ReadResult, found, slice, follow, read_loop}
use casper_labs.Trie.Operations.Paths.{bytes_eq}

pub bytes_eq_refl : (x : Bytes) → bytes_eq x x ≡ true
bytes_eq_refl [] = refl
bytes_eq_refl (a ∷ x) = ground (arith, bytes_eq_refl x)

pub bytes_eq→eq : (x y : Bytes) → bytes_eq x y ≡ true → x ≡ y
bytes_eq→eq [] [] h = refl
bytes_eq→eq (a ∷ x) (b ∷ y) h = ground (arith, bytes_eq→eq x y)
bytes_eq→eq [] (b ∷ y) h = ground arith
bytes_eq→eq (a ∷ x) [] h = ground arith

pub slice-append : {E : Type 0} (x y : Bytes) → slice {E = E} (length x) (x ++ y) ≡ ok (x, y)
unfolding slice
slice-append x y = ground (arith, length-append x y, take-append x y, drop-append x y)

pub slice-le :
    {E : Type 0} (n : ℕ) (x : Bytes) → n ≤ length x → slice {E = E} n x ≡ ok (take n x, drop n x)
unfolding slice
slice-le n x h = ground arith

-- What a store does: `look s` is what it holds under each hash.
pub record IsTrieStore {K V S E : Type 0} (store : TrieStore K V S E)
    (look : S → ℕ → Option (Trie K V)) : Type 0 where
  pub gets : (h : ℕ) (s : S) → store.get h s ≡ ok (look s h)
  pub puts :
      (h : ℕ) (t : Trie K V) (s : S)
      → (s' : S) × (store.put h t s ≡ ok s')
        × ((j : ℕ) → look s' j ≡ (if j == h then some t else look s j))

-- With the elements that `look` has, a trie holds for the key, along the path, a value or none.
pub data Reads {K V : Type 0} (types : Elements K V) (look : ℕ → Option (Trie K V)) (key : K)
    : Trie K V → Bytes → Option V → Type 0 where
  at_key :
      (k : K) (v : V) (path : Bytes)
      → types.key_eq key k ≡ true
      → Reads types look key (leaf k v) path (some v)
  at_other :
      (k : K) (v : V) (path : Bytes)
      → types.key_eq key k ≡ false
      → Reads types look key (leaf k v) path none
  no_child :
      (block : List (Option Pointer)) (i : ℕ) (path : Bytes)
      → slot block i ≡ none
      → Reads types look key (node block) (i ∷ path) none
  child :
      (block : List (Option Pointer)) (i : ℕ) (path : Bytes) (p : Pointer) (t : Trie K V)
      (r : Option V)
      → slot block i ≡ some p
      → look (pointer_hash p) ≡ some t
      → Reads types look key t path r
      → Reads types look key (node block) (i ∷ path) r
  off_affix :
      (affix : Bytes) (p : Pointer) (path : Bytes)
      → length affix ≤ length path
      → bytes_eq (take (length affix) path) affix ≡ false
      → Reads types look key (extension affix p) path none
  past_affix :
      (a : ℕ) (affix : Bytes) (p : Pointer) (path rest : Bytes) (t : Trie K V) (r : Option V)
      → path ≡ (a ∷ affix) ++ rest
      → look (pointer_hash p) ≡ some t
      → Reads types look key t rest r
      → Reads types look key (extension (a ∷ affix) p) path r

abbrev pub read_result : {V : Type 0} → Option V → ReadResult V
read_result (some v) = found v
read_result none = ReadResult.not_found

pub shorter :
    (fuel : ℕ) (path : Bytes) (a : ℕ) (affix rest : Bytes)
    → path ≡ (a ∷ affix) ++ rest
    → length path < suc fuel
    → length rest < fuel
shorter fuel path a affix rest e lt = omega (arith, ap length e, length-append affix rest)

module _ {K V S E : Type 0} (types : Elements K V) (store : TrieStore K V S E)
    (look : S → ℕ → Option (Trie K V)) (law : IsTrieStore store look) where
  pub follow_lem :
      (p : Pointer) (s : S) (t : Trie K V)
      → look s (pointer_hash p) ≡ some t
      → follow types store p s ≡ ok t
  unfolding follow
  follow_lem p s t e = ground (arith, law.gets (pointer_hash p) s)

  -- Within as many rounds as the path has bytes, and one.
  pub read_loop-Reads :
      (fuel : ℕ) (t : Trie K V) (path : Bytes) (key : K) (s : S) (r : Option V)
      → Reads types (look s) key t path r
      → length path < fuel
      → read_loop types store fuel t path key s ≡ ok (read_result r)
  unfolding read_loop
  read_loop-Reads zero t path key s r d lt = absurd (omega arith)
  read_loop-Reads (suc fuel) _ _ key s _ (at_key k v path e) lt = ground arith
  read_loop-Reads (suc fuel) _ _ key s _ (at_other k v path e) lt = ground arith
  read_loop-Reads (suc fuel) _ _ key s _ (no_child block i path e) lt = ground arith
  read_loop-Reads (suc fuel) _ _ key s _ (child block i path p t' r e l d) lt =
      ground (arith, follow_lem p s t' l, read_loop-Reads fuel t' path key s r d (omega arith))
  read_loop-Reads (suc fuel) _ _ key s _ (off_affix affix p path le e) lt =
      ground (arith, slice-le {E = E} (length affix) path le)
  read_loop-Reads (suc fuel) _ _ key s _ (past_affix a affix p path rest t' r e l d) lt = ground (
    arith,
    ap (slice {E = E} (length (a ∷ affix))) e ∙ slice-append {E = E} (a ∷ affix) rest,
    bytes_eq_refl (a ∷ affix),
    follow_lem p s t' l,
    read_loop-Reads fuel t' rest key s r d (shorter fuel path a affix rest e lt),
  )
