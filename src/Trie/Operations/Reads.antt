-- ===== src/Trie/Operations/Reads.antt =====
-- `read` and `scan` of
-- execution-engine/engine-storage/src/trie_store/operations/mod.rs.
use casper_labs.Base.{
  ℕ, zero, suc, true, false, none, some, [], ◌∷◌, ◌++◌, length, ok, err, map_err, ◌>>=◌,
  if◌then◌else◌,
}
use casper_labs.Bytes.{Bytes}
use casper_labs.Trie.{slot, Trie, leaf, node, extension}
use casper_labs.Trie.Operations.Store.{
  Elements, TrieStore, failed, panicked, out_of_fuel, Run, slice, byte_at, encoded, follow,
}
use casper_labs.Trie.Operations.Paths.{Parents, bytes_eq}

pub data ReadResult (V : Type 0) : Type 0 where
  found : V → ReadResult V
  not_found root_not_found : ReadResult V

module _ {K V S E : Type 0} (types : Elements K V) (store : TrieStore K V S E) where
  unfoldable pub read_loop : ℕ → Trie K V → Bytes → K → S → Run E (ReadResult V)
  read_loop zero current path key s = err out_of_fuel
  read_loop (suc fuel) (leaf leaf_key leaf_value) path key s =
      ok (if types.key_eq key leaf_key then found leaf_value else ReadResult.not_found)
  read_loop (suc fuel) (node block) [] key s = err panicked
  read_loop (suc fuel) (node block) (index ∷ path) key s = elim (slot block index) [
    | none ↦ ok ReadResult.not_found
    | some pointer ↦ follow types store pointer s >>= λ next. read_loop fuel next path key s
  ]
  read_loop (suc fuel) (extension affix pointer) path key s =
      slice (length affix) path >>= λ (sub_path, rest). elim (bytes_eq sub_path affix) [
        | false ↦ ok ReadResult.not_found
        | true ↦ follow types store pointer s >>= λ next. read_loop fuel next rest key s
      ]

  unfoldable pub read : ℕ → K → S → Run E (ReadResult V)
  unfolding read_loop
  read root key s = encoded types store (types.key.to_bytes key) >>= λ path.
      map_err failed (store.get root s) >>= λ found_root. elim found_root [
        | none ↦ ok ReadResult.root_not_found
        | some current ↦ read_loop (suc (length path)) current path key s
      ]

  -- `TrieScan`: the tip and its parents
  unfoldable pub scan_loop : ℕ → Trie K V → Bytes → Parents K V → S → Run E (Trie K V × Parents K V)
  scan_loop zero current path acc s = err out_of_fuel
  scan_loop (suc fuel) (leaf k v) path acc s = ok (leaf k v, acc)
  scan_loop (suc fuel) (node block) [] acc s = err panicked
  scan_loop (suc fuel) (node block) (index ∷ path) acc s = elim (slot block index) [
    | none ↦ ok (node block, acc)
    | some pointer ↦ follow types store pointer s >>= λ next.
        scan_loop fuel next path (acc ++ (index, node block) ∷ []) s
  ]
  scan_loop (suc fuel) (extension affix pointer) path acc s =
      slice (length affix) path >>= λ (sub_path, rest). elim (bytes_eq sub_path affix) [
        | false ↦ ok (extension affix pointer, acc)
        | true ↦ follow types store pointer s >>= λ next. byte_at path 0 >>= λ index.
            scan_loop fuel next rest (acc ++ (index, extension affix pointer) ∷ []) s
      ]
