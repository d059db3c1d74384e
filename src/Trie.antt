-- ===== src/Trie.antt =====
-- The trie of the global state: execution-engine/engine-storage/src/trie/mod.rs. A hash is a
-- `[u8; 32]`, read as a number.
pub mod Encoding
pub mod EncodingLaws
pub mod Operations
pub mod Blocks
pub mod Reading
pub mod Spine
pub mod Rebuild
pub mod Lift
pub mod Shape
pub mod Prefixes
pub mod Tips
pub mod Writing
pub mod Written
pub mod Keys
mod Tests
use casper_labs.Base.{ℕ, zero, suc, ◌≡◌, Option, none, some, List, [], ◌∷◌}
use casper_labs.Bytes.{Bytes}

abbrev pub radix : ℕ
radix = 256

pub data Pointer : Type 0 where
  leaf_pointer node_pointer : ℕ → Pointer

abbrev pub pointer_hash : Pointer → ℕ
pointer_hash (leaf_pointer hash) = hash
pointer_hash (node_pointer hash) = hash

abbrev pub pointer_update : ℕ → Pointer → Pointer
pointer_update hash (leaf_pointer _) = leaf_pointer hash
pointer_update hash (node_pointer _) = node_pointer hash

-- `[Option<Pointer>; RADIX]`
abbrev pub PointerBlock : Type 0
PointerBlock = List (Option Pointer)

abbrev pub replicate : ℕ → List (Option Pointer)
replicate zero = []
replicate (suc n) = none ∷ replicate n

unfoldable pub empty_block : PointerBlock
empty_block = replicate radix

-- An index is a byte, so that it is within the block.
unfoldable pub slot : PointerBlock → ℕ → Option Pointer
slot [] i = none
slot (p ∷ block) zero = p
slot (p ∷ block) (suc i) = slot block i

unfoldable pub set_slot : PointerBlock → ℕ → Pointer → PointerBlock
set_slot [] i p = []
set_slot (o ∷ block) zero p = some p ∷ block
set_slot (o ∷ block) (suc i) p = o ∷ set_slot block i p

pub data Trie (K V : Type 0) : Type 0 where
  leaf : K → V → Trie K V
  node : PointerBlock → Trie K V
  extension : Bytes → Pointer → Trie K V

-- `Trie::node(&[(index, pointer)])`
abbrev pub node_of : {K V : Type 0} → ℕ → Pointer → Trie K V
node_of index pointer = node (set_slot empty_block index pointer)
