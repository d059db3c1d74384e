-- ===== src/Trie/Tips.antt =====
-- What a write to execution-engine/engine-storage/src/trie_store/operations/mod.rs makes of the tip of
-- a scan.
pub mod Shapes
pub mod Slots
pub mod Split
pub mod Rejoin
pub mod Leaves
pub mod Reparent
pub mod Extensions
pub mod Extended
use casper_labs.Base.{
  ℕ, zero, suc, ◌+◌, ◌≤◌, ◌<◌, ◌≡◌, refl, sym, ap, ◌∙◌, Option, none, some, List, [], ◌∷◌, ◌++◌,
  length, Result, ok, ⊤,
}
use mathlib.Core.Path.{subst}
use casper_labs.Bytes.{Bytes}
use casper_labs.Trie.{Trie, leaf}
use casper_labs.Trie.Operations.{Elements, with_child}
use casper_labs.Trie.Operations.Paths.{Parents, get_parents_path}
use casper_labs.Trie.Reading.{Reads}
use casper_labs.Trie.Shape.{Shaped, IsNode}
use casper_labs.Trie.Rebuild.{
  Rebuilt, Rebuilt-append, Extends, Present, last_element, Climbs, Climbs-root, Rehashed,
}

module _ {K V : Type 0} (types : Elements K V) (Valid : K → Type 0) (look : ℕ → Option (Trie K V))
    (parents : Parents K V) (tip : Trie K V) (rest : Bytes) (key : K) (value : V) where
  -- Another key that leads to the tip, where its path is not much shorter
  abbrev pub IsOther : K → Bytes → Type 0
  IsOther other rest' =
      (other ≡ key → ⊥)
      × Valid other
      × (types.key.to_bytes other ≡ ok (get_parents_path parents ++ rest'))
      × (0 < length (get_parents_path parents) → length rest ≤ suc (length rest'))

  -- The new tip has the value for the key, for other keys what the old tip has, and the shape.
  abbrev pub Improves : (ℕ → Option (Trie K V)) → Trie K V → Type 0
  Improves look' c =
      Reads types look' key c rest (some value)
      × ((other : K) (rest' : Bytes) (r : Option V)
          → IsOther other rest'
          → Reads types look other tip rest' r
          → Reads types look' other c rest' r)
      × Shaped types Valid look' (get_parents_path parents) c
      × (IsNode tip → IsNode c)

  -- Once the elements are in the store, the last of them is a root with a tip that improves the old one.
  abbrev pub Grown : List (ℕ × Trie K V) → Type 0
  Grown elements =
      (first : ℕ × Trie K V) × (others : List (ℕ × Trie K V)) × (elements ≡ first ∷ others)
      × ((look' : ℕ → Option (Trie K V))
          → Extends look look'
          → Present look' elements
          → (c : Trie K V) × (root : Trie K V) × Rebuilt look' parents c root
            × (look' (last_element first others).0 ≡ some root)
            × Improves look' c)

  abbrev pub PresentChild : (ℕ → Option (Trie K V)) → Option (ℕ × Trie K V) → Type 0
  PresentChild look' none = ⊤
  PresentChild look' (some (h, t)) = look' h ≡ some t

  -- It is enough to look at the new parents.
  pub Rehashed-Grown :
      (extra : Parents K V) (child : Option (ℕ × Trie K V)) (elements : List (ℕ × Trie K V))
      → Rehashed (leaf key value) (parents ++ extra) elements
      → ((look' : ℕ → Option (Trie K V)) (c : Trie K V)
          → Extends look look'
          → PresentChild look' child
          → Rebuilt look' extra (leaf key value) c
          → Improves look' c)
      → Grown (with_child child elements)
  Rehashed-Grown extra none elements (h, es, e, climbs) improves = (
    (h, leaf key value),
    es,
    e,
    (λ look' ext present.
        let (whole, at) =
          Climbs-root look' (parents ++ extra) (leaf key value) h es climbs
            (subst (Present look') e present) in
        let (c, x, y) = Rebuilt-append look' parents extra (leaf key value) _ whole in
        (c, _, y, at, improves look' c ext tt x)),
  )
  Rehashed-Grown extra (some child) elements (h, es, e, climbs) improves = (
    child,
    (h, leaf key value) ∷ es,
    ap (λ x. child ∷ x) e,
    (λ look' ext (there, present).
        let (whole, at) =
          Climbs-root look' (parents ++ extra) (leaf key value) h es climbs
            (subst (Present look') e present) in
        let (c, x, y) = Rebuilt-append look' parents extra (leaf key value) _ whole in
        (c, _, y, at, improves look' c ext there x)),
  )
