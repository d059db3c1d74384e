-- ===== src/Trie/Operations/Paths.antt =====
-- Paths in a trie: `common_prefix` and `get_parents_path` of
-- execution-engine/engine-storage/src/trie_store/operations/mod.rs.
use casper_labs.Base.{
  ℕ, Bool, true, false, ◌&&◌, Option, none, some, List, [], ◌∷◌, ◌++◌, ◌==◌, if◌then◌else◌,
}
use casper_labs.Bytes.{Bytes}
use casper_labs.Trie.{Trie, leaf, node, extension}

-- A parent is a child index with a node or an extension.
abbrev pub Parents : Type 0 → Type 0 → Type 0
Parents K V = List (ℕ × Trie K V)

-- The equality of slices
abbrev pub bytes_eq : Bytes → Bytes → Bool
bytes_eq [] [] = true
bytes_eq (a ∷ x) (b ∷ y) = a == b && bytes_eq x y
bytes_eq _ _ = false

unfoldable pub common_prefix : Bytes → Bytes → Bytes
common_prefix (l ∷ ls) (r ∷ rs) = let rest = common_prefix ls rs in if l == r then l ∷ rest else []
common_prefix _ _ = []

module _ {K V : Type 0} where
  abbrev pub step_path : ℕ → Trie K V → Bytes
  step_path index (extension affix _) = affix
  step_path index (node _) = index ∷ []
  step_path index (leaf _ _) = index ∷ []

  unfoldable pub get_parents_path : Parents K V → Bytes
  get_parents_path [] = []
  get_parents_path ((index, element) ∷ parents) =
      step_path index element ++ get_parents_path parents

  -- `parents.pop()`, where the parent is pushed again
  unfoldable pub last_of : Parents K V → Option (ℕ × Trie K V)
  last_of [] = none
  last_of (p ∷ []) = some p
  last_of (p ∷ q ∷ parents) = last_of (q ∷ parents)
