-- ===== src/Trie/Operations/Writes.antt =====
-- `write` of
-- execution-engine/engine-storage/src/trie_store/operations/mod.rs.
use casper_labs.Base.{
  ℕ, suc, ◌&&◌, none, some, List, [], ◌∷◌, length, ok, map_err, ◌>>=◌, if◌then◌else◌,
}
use casper_labs.Bytes.{Bytes}
use casper_labs.Trie.{Trie, leaf, node, extension}
use casper_labs.Trie.Operations.Store.{Elements, TrieStore, failed, Run, encoded}
use casper_labs.Trie.Operations.Reads.{scan_loop}
use casper_labs.Trie.Operations.Parts.{
  rehash, with_child, add_node_to_parents, reparent_leaf, split_extension,
}
use casper_labs.Trie.Operations.Paths.{Parents}

pub data WriteResult : Type 0 where
  written : ℕ → WriteResult
  already_exists root_not_found : WriteResult

module _ {K V S E : Type 0} (types : Elements K V) (store : TrieStore K V S E) where
  -- `new_elements`, by the tip
  unfoldable pub new_elements : Bytes → K → V → Trie K V → Parents K V → Run E (List (ℕ × Trie K V))
  unfolding rehash add_node_to_parents reparent_leaf split_extension
  new_elements path key value (leaf leaf_key leaf_value) parents =
      if types.key_eq key leaf_key && types.value_eq value leaf_value
      then ok []
      else if types.key_eq key leaf_key
      then rehash types store (leaf key value) parents
      else (encoded types store (types.key.to_bytes leaf_key) >>= λ existing_leaf_path.
          reparent_leaf types store path existing_leaf_path parents >>= λ (new_node, parents').
          add_node_to_parents types store path new_node parents' >>= λ parents''.
          rehash types store (leaf key value) parents'')
  new_elements path key value (node block) parents =
      add_node_to_parents types store path (node block) parents >>= λ parents'.
      rehash types store (leaf key value) parents'
  new_elements path key value (extension affix pointer) parents =
      split_extension types store path affix pointer parents >>= λ (new_node, parents', child).
      add_node_to_parents types store path new_node parents' >>= λ parents''.
      rehash types store (leaf key value) parents'' >>= λ elements. ok (with_child child elements)

  -- `for (hash, element) in new_elements.iter()`
  unfoldable pub put_all : ℕ → List (ℕ × Trie K V) → S → Run E (ℕ × S)
  put_all root_hash [] s = ok (root_hash, s)
  put_all root_hash ((hash, element) ∷ elements) s =
      map_err failed (store.put hash element s) >>= λ s'. put_all hash elements s'

  abbrev pub finish_write : ℕ → List (ℕ × Trie K V) → S → Run E (WriteResult × S)
  finish_write root [] s = ok (already_exists, s)
  finish_write root (e ∷ elements) s =
      put_all root (e ∷ elements) s >>= λ (root_hash, s'). ok (written root_hash, s')

  unfoldable pub write : ℕ → K → V → S → Run E (WriteResult × S)
  unfolding new_elements scan_loop put_all
  write root key value s = map_err failed (store.get root s) >>= λ found_root. elim found_root [
    | none ↦ ok (WriteResult.root_not_found, s)
    | some current_root ↦ encoded types store (types.key.to_bytes key) >>= λ path.
        scan_loop types store (suc (length path)) current_root path [] s >>= λ (tip, parents).
        new_elements path key value tip parents >>= λ elements. finish_write root elements s
  ]
