-- ===== src/Trie/Operations/Parts.antt =====
-- `rehash`, `add_node_to_parents`, `reparent_leaf` and `split_extension` of
-- execution-engine/engine-storage/src/trie_store/operations/mod.rs.
use casper_labs.Base.{
  ℕ, ◌+◌, not, Option, none, some, List, [], ◌∷◌, ◌++◌, length, ok, err, ◌>>=◌, if◌then◌else◌,
}
use mathlib.Core.List.{reverse}
use casper_labs.Bytes.{Bytes}
use casper_labs.Trie.{
  Pointer, leaf_pointer, node_pointer, pointer_update, PointerBlock, slot, set_slot, Trie, leaf,
  node, extension, node_of,
}
use casper_labs.Trie.Encoding.{trie_codec}
use casper_labs.Trie.Operations.Store.{
  Elements, TrieStore, panicked, Run, expect, tail_from, byte_at, encoded,
}
use casper_labs.Trie.Operations.Paths.{Parents, bytes_eq, common_prefix, get_parents_path, last_of}

module _ {K V : Type 0} where
  abbrev pub pointer_to : Trie K V → ℕ → Pointer
  pointer_to (leaf _ _) hash = leaf_pointer hash
  pointer_to (node _) hash = node_pointer hash
  pointer_to (extension _ _) hash = node_pointer hash

  abbrev pub child_pointer : Pointer → Option (ℕ × Trie K V) → Pointer
  child_pointer pointer none = pointer
  child_pointer pointer (some (hash, _)) = node_pointer hash

  abbrev pub with_child : Option (ℕ × Trie K V) → List (ℕ × Trie K V) → List (ℕ × Trie K V)
  with_child none elements = elements
  with_child (some child) elements = child ∷ elements

abbrev pub first_or : ℕ → Bytes → ℕ
first_or default [] = default
first_or default (a ∷ _) = a

module _ {K V E : Type 0} where
  abbrev pub expect_node : ℕ × Trie K V → Run E (ℕ × PointerBlock)
  expect_node (index, node block) = ok (index, block)
  expect_node (index, leaf _ _) = err panicked
  expect_node (index, extension _ _) = err panicked

module _ {K V S E : Type 0} (types : Elements K V) (store : TrieStore K V S E) where
  unfoldable pub trie_hash : Trie K V → Run E ℕ
  trie_hash t = encoded types store ((trie_codec types.key types.value).to_bytes t) >>= λ bytes.
      ok (types.blake2b bytes)

  -- The loop of `rehash`, over the parents from the deepest on
  unfoldable pub rehash_loop :
      Trie K V → ℕ → Parents K V → List (ℕ × Trie K V) → Run E (List (ℕ × Trie K V))
  rehash_loop tip tip_hash [] ret = ok ret
  rehash_loop tip tip_hash ((index, leaf _ _) ∷ parents) ret = err panicked
  rehash_loop tip tip_hash ((index, node block) ∷ parents) ret =
      let tip' = node (set_slot block index (pointer_to tip tip_hash)) in
      trie_hash tip' >>= λ hash. rehash_loop tip' hash parents (ret ++ (hash, tip') ∷ [])
  rehash_loop tip tip_hash ((index, extension affix pointer) ∷ parents) ret =
      let tip' = extension affix (pointer_update tip_hash pointer) in
      trie_hash tip' >>= λ hash. rehash_loop tip' hash parents (ret ++ (hash, tip') ∷ [])

  unfoldable pub rehash : Trie K V → Parents K V → Run E (List (ℕ × Trie K V))
  unfolding rehash_loop
  rehash tip parents =
      trie_hash tip >>= λ hash. rehash_loop tip hash (reverse parents) ((hash, tip) ∷ [])

  unfoldable pub add_node_to_parents : Bytes → Trie K V → Parents K V → Run E (Parents K V)
  unfolding get_parents_path common_prefix
  add_node_to_parents path_to_leaf (leaf _ _) parents = err panicked
  add_node_to_parents path_to_leaf (extension _ _) parents = err panicked
  add_node_to_parents path_to_leaf (node block) parents =
      let path_to_node = get_parents_path parents in
      if not (bytes_eq (common_prefix path_to_leaf path_to_node) path_to_node)
      then err panicked
      else (byte_at path_to_leaf (length path_to_node) >>= λ index.
          ok (parents ++ (index, node block) ∷ []))

  -- An extension above a new node, where the affix is not empty
  unfoldable pub add_extension : ℕ → Bytes → Trie K V → Parents K V → Run E (Parents K V)
  add_extension index [] new_node parents = ok parents
  add_extension index (a ∷ affix) new_node parents = trie_hash new_node >>= λ hash.
      ok (parents ++ (index, extension (a ∷ affix) (node_pointer hash)) ∷ [])

  unfoldable pub reparent_leaf : Bytes → Bytes → Parents K V → Run E (Trie K V × Parents K V)
  unfolding add_extension get_parents_path common_prefix last_of
  reparent_leaf new_leaf_path existing_leaf_path parents = expect (last_of parents) >>= λ parent.
      expect_node parent >>= λ (child_index, block).
      let shared_path = common_prefix new_leaf_path existing_leaf_path in
      byte_at existing_leaf_path (length shared_path) >>= λ index.
      expect (slot block child_index) >>= λ existing_leaf_pointer.
      let new_node = node_of index existing_leaf_pointer in
      tail_from (length (get_parents_path parents)) shared_path >>= λ affix.
      add_extension child_index affix new_node parents >>= λ parents'. ok (new_node, parents')

  -- The child extension with its hash, where there is to be one
  unfoldable pub child_extension : Bytes → Pointer → Run E (Option (ℕ × Trie K V))
  child_extension [] pointer = ok none
  child_extension (a ∷ affix) pointer = trie_hash (extension (a ∷ affix) pointer) >>= λ hash.
      ok (some (hash, extension (a ∷ affix) pointer))

  unfoldable pub split_extension :
      Bytes → Bytes → Pointer → Parents K V → Run E (Trie K V × Parents K V × Option (ℕ × Trie K V))
  unfolding child_extension add_extension get_parents_path common_prefix
  split_extension new_leaf_path affix pointer parents =
      let parents_path = get_parents_path parents in
      let existing_extension_path = parents_path ++ affix in
      let shared_path = common_prefix new_leaf_path existing_extension_path in
      tail_from (length parents_path) shared_path >>= λ parent_extension_affix.
      tail_from (length parent_extension_affix + 1) affix >>= λ child_extension_affix.
      child_extension child_extension_affix pointer >>= λ child.
      byte_at existing_extension_path (length shared_path) >>= λ index.
      let new_node = node_of index (child_pointer pointer child) in
      add_extension (first_or 0 parent_extension_affix) parent_extension_affix new_node parents
      >>= λ parents'. ok (new_node, parents', child)
