-- ===== src/Trie/Operations.antt =====
-- Reading and writing keys in a trie:
-- execution-engine/engine-storage/src/trie_store/operations/mod.rs. The path from `depth` on stands for
-- the path and the depth. Logging and metrics are left out.
pub mod Paths
pub mod Store
pub mod Reads
pub mod Parts
pub mod Writes
pub use Store.{Elements, TrieStore, Fault, failed, panicked, out_of_fuel}
unfoldable pub use Store.{Run, expect, slice, tail_from, byte_at, encoded, follow}
pub use Reads.{ReadResult, found}
unfoldable pub use Reads.{read_loop, read, scan_loop}
unfoldable pub use Parts.{
  pointer_to, child_pointer, with_child, first_or, expect_node, trie_hash, rehash_loop, rehash,
  add_node_to_parents, add_extension, reparent_leaf, child_extension, split_extension,
}
pub use Writes.{WriteResult, written, already_exists}
unfoldable pub use Writes.{new_elements, put_all, finish_write, write}
