-- ===== src/Trie/Tips/Rejoin.antt =====
-- A write to execution-engine/engine-storage/src/trie_store/operations/mod.rs that splits a path: the
-- parents, from the new node on.
use casper_labs.Base.{ℕ, ◌≡◌, refl, sym, ap, ◌∙◌, Option, some, [], ◌∷◌, ◌++◌, append_assoc, ◌>>=◌}
use mathlib.Core.Path.{subst}
use casper_labs.Bytes.{Bytes}
use casper_labs.Trie.{Pointer, set_slot, Trie, leaf, node}
use casper_labs.Trie.Operations.{
  Elements, TrieStore, pointer_to, add_node_to_parents, rehash, with_child,
}
use casper_labs.Trie.Operations.Paths.{Parents, get_parents_path, step_path}
use casper_labs.Trie.Rebuild.{
  Rebuilt, Rebuilt-append, Extends, Runs, Runs_mono, NoLeaves, NoLeaves-append, rehash-Runs,
}
use casper_labs.Trie.Shape.{IsElements}
use casper_labs.Trie.Tips.{Improves, Grown, PresentChild, Rehashed-Grown}
use casper_labs.Trie.Tips.Slots.{add_node_to_parents_lem}
use casper_labs.Trie.Blocks.{block_of}
use casper_labs.Trie.Blocks.{block_of}
use casper_labs.Trie.Tips.Split.{Above, Above-path, Above-NoLeaves}

pub get_parents_path-append :
    {K V : Type 0} (ps qs : Parents K V)
    → get_parents_path (ps ++ qs) ≡ get_parents_path ps ++ get_parents_path qs
unfolding get_parents_path
get_parents_path-append [] qs = refl
get_parents_path-append ((i, t) ∷ ps) qs =
    ap (λ x. step_path i t ++ x) (get_parents_path-append ps qs)
    ∙ sym (append_assoc (step_path i t) (get_parents_path ps) (get_parents_path qs))

module _ {K V S E : Type 0} (types : Elements K V) (store : TrieStore K V S E) (Valid : K → Type 0)
    (law : IsElements types Valid) (look : ℕ → Option (Trie K V)) (parents : Parents K V)
    (no_leaves : NoLeaves parents) (key : K) (value : V) where
  -- The end of a write that splits a path
  pub split-Grown :
      (tip : Trie K V) (rest shared rest' : Bytes) (a b : ℕ) (p : Pointer) (extra : Parents K V)
      (more : Option (ℕ × Trie K V))
      → rest ≡ shared ++ a ∷ rest'
      → Above shared extra
      → ((look' : ℕ → Option (Trie K V)) (h : ℕ) (c : Trie K V)
          → Extends look look'
          → PresentChild types Valid look parents tip rest key value look' more
          → look' h ≡ some (leaf key value)
          → Rebuilt look' extra (node (set_slot (block_of b p) a (pointer_to (leaf key value) h))) c
          → Improves types Valid look parents tip rest key value look' c)
      → Runs
          (add_node_to_parents types store
              (get_parents_path parents ++ rest)
              (node (block_of b p))
              (parents ++ extra)
            >>= λ parents'. rehash types store (leaf key value) parents')
          (λ elements. Grown types Valid look parents tip rest key value (with_child more elements))
  split-Grown tip rest shared rest' a b p extra more e above improves =
      let node' = node (block_of b p) in
      let q = get_parents_path parents in
      let path : q ++ rest ≡ (q ++ shared) ++ a ∷ rest' =
        ap (λ x. q ++ x) e ∙ sym (append_assoc q shared (a ∷ rest')) in
      let to_node : get_parents_path (parents ++ extra) ≡ q ++ shared =
        get_parents_path-append parents extra ∙ ap (λ x. q ++ x) (Above-path shared extra above) in
      rw
        (
          path,
          add_node_to_parents_lem types store (q ++ shared) a rest' (block_of b p)
              (parents ++ extra) to_node,
          append_assoc parents extra ((a, node') ∷ []),
        )
        (Runs_mono (rehash types store (leaf key value) (parents ++ (extra ++ (a, node') ∷ []))) _ _
          (rehash-Runs types store (leaf key value) (parents ++ (extra ++ (a, node') ∷ [])) (
            NoLeaves-append parents (extra ++ (a, node') ∷ []) no_leaves
              (NoLeaves-append extra ((a, node') ∷ []) (Above-NoLeaves shared extra above) tt)))
          (λ elements made.
            Rehashed-Grown types Valid look parents tip rest key value (extra ++ (a, node') ∷ [])
              more elements made
              (λ look' c ext present whole.
                let (c0, (h, t, l, at, at'), above_c) =
                  Rebuilt-append look' extra ((a, node') ∷ []) (leaf key value) c whole in
                improves look' h c ext present (l ∙ ap some at) (
                  subst (λ x. Rebuilt look' extra x c)
                    (at' ∙ ap (λ x. node (set_slot (block_of b p) a (pointer_to x h))) at)
                    above_c))))
