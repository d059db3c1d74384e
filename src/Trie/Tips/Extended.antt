-- ===== src/Trie/Tips/Extended.antt =====
-- `write` of execution-engine/engine-storage/src/trie_store/operations/mod.rs at an extension that the
-- path leaves.
use casper_labs.Base.{
  ℕ, suc, ◌+◌, ◌≤◌, ◌<◌, ◌≡◌, refl, sym, ap, ◌∙◌, false, Bool-cases, Option, none, some, [], ◌∷◌,
  ◌++◌, append_assoc, inl, inr, length, length-append, ok, All, arith,
}
use mathlib.Core.Path.{subst}
use mathlib.Core.Option.{some-injective}
use casper_labs.Bytes.{Bytes, take, drop}
use casper_labs.Bytes.Laws.{take-append, take-drop}
use casper_labs.Trie.{Pointer, pointer_hash, set_slot, Trie, leaf, node, extension}
use casper_labs.Trie.Operations.{
  Elements, TrieStore, split_extension, child_pointer, add_node_to_parents, rehash, new_elements,
  pointer_to, with_child,
}
use casper_labs.Trie.Operations.Paths.{Parents, get_parents_path, bytes_eq}
use casper_labs.Trie.Reading.{Reads, bytes_eq_refl, bytes_eq→eq}
use casper_labs.Trie.Rebuild.{Rebuilt, Extends, Runs, Runs->>=, Runs->>=_end, NoLeaves}
use casper_labs.Trie.Lift.{Reads-mono, same_element}
use casper_labs.Trie.Shape.{IsElements, Shaped, IsNode}
use casper_labs.Trie.Tips.Shapes.{two_children-Shaped, Shaped-mono}
use casper_labs.Trie.Prefixes.{two_apart, All-shared, All-behind, Parted, Parted-affix}
use casper_labs.Trie.Tips.{Improves, Grown, PresentChild}
use casper_labs.Trie.Blocks.{block_of}
use casper_labs.Trie.Tips.Split.{
  Above-Shaped, Above, Above-Reads, Above-leaves, two_children_key, two_children_other,
}
use casper_labs.Trie.Tips.Rejoin.{split-Grown}
use casper_labs.Trie.Tips.Reparent.{byte_below, All-at}
use casper_labs.Trie.Tips.Extensions.{ChildOf-Leads, Leads, read_extension, split_extension-Runs}

affix_behind :
    (affix shared rest path z : Bytes) (a : ℕ)
    → affix ≡ shared ++ a ∷ rest
    → path ≡ shared ++ a ∷ z
    → bytes_eq (take (length affix) path) affix ≡ false
    → bytes_eq (take (length rest) z) rest ≡ false
affix_behind affix shared rest path z a e at off =
    elim (Bool-cases (bytes_eq (take (length rest) z) rest)) [
      | inl same ↦
          let tail = drop (length rest) z in
          let begins : z ≡ rest ++ tail =
            sym (take-drop (length rest) z)
            ∙ ap (λ w. w ++ tail) (bytes_eq→eq (take (length rest) z) rest same) in
          let whole : path ≡ affix ++ tail =
            at
            ∙ ap (λ w. shared ++ a ∷ w) begins
            ∙ sym (append_assoc shared (a ∷ rest) tail)
            ∙ ap (λ w. w ++ tail) (sym e) in
          absurd (
            ground (
              arith,
              off,
              ap (take (length affix)) whole ∙ take-append affix tail,
              bytes_eq_refl affix,
            ))
      | inr differ ↦ differ
    ]

module _ {K V : Type 0} (types : Elements K V) (Valid : K → Type 0) (law : IsElements types Valid)
    (look : ℕ → Option (Trie K V)) (parents : Parents K V) (key : K) (value : V) (x affix : Bytes)
    (p : Pointer) (split : Parted x affix) (t : Trie K V) (l : look (pointer_hash p) ≡ some t)
    (a_lt : split.left < 256) (b_lt : split.right < 256) (valid : Valid key)
    (encodes : types.key.to_bytes key ≡ ok (get_parents_path parents ++ x))
    (bytes : All (λ b. b < 256) affix)
    (shaped_t : Shaped types Valid look (get_parents_path parents ++ affix) t)
    (is_node : IsNode t) where
  module _ (extra : Parents K V) (q : Pointer) (h : ℕ) (look' : ℕ → Option (Trie K V))
      (c u : Trie K V) (ext : Extends look look') (above : Above split.shared extra)
      (lu : look' (pointer_hash q) ≡ some u) (leads : Leads types Valid look' split.right_rest t u)
      (l' : look' h ≡ some (leaf key value))
      (b : Rebuilt look' extra
        (node (set_slot (block_of split.right q) split.left (pointer_to (leaf key value) h)))
        c) where
    abbrev children : Trie K V
    children = node (set_slot (block_of split.right q) split.left (pointer_to (leaf key value) h))

    children_other :
        (other : K) (path : Bytes) (r : Option V)
        → (other ≡ key → ⊥)
        → 0 < length path
        → ((z : Bytes) → path ≡ split.right ∷ z → Reads types look' other u z r)
        → (((z : Bytes) → path ≡ split.right ∷ z → ⊥) → r ≡ none)
        → Reads types look' other children path r
    children_other =
        two_children_other types Valid law look' key value split.left split.right h q u a_lt b_lt
          split.differ lu l'

    within_affix :
        (other : K) (path w : Bytes) (r : Option V)
        → (other ≡ key → ⊥)
        → path ≡ affix ++ w
        → Reads types look' other t w r
        → Reads types look' other c path r
    within_affix other path w r n e d =
        let z = split.right ∷ (split.right_rest ++ w) in
        let at : path ≡ split.shared ++ z =
          e
          ∙ ap (λ y. y ++ w) split.y_is
          ∙ append_assoc split.shared (split.right ∷ split.right_rest) w in
        subst (λ y. Reads types look' other c y r) (sym at)
          (Above-Reads types look' split.shared extra children c other z r above b (
            children_other other z r n (omega arith)
              (λ z' same.
                subst (λ y. Reads types look' other u y r) (ap (drop 1) same) (leads.0 other w r d))
              (λ no. absurd (no (split.right_rest ++ w) refl))))

    off_whole_affix :
        (other : K) (path : Bytes)
        → (other ≡ key → ⊥)
        → length affix ≤ length path
        → bytes_eq (take (length affix) path) affix ≡ false
        → Reads types look' other c path none
    off_whole_affix other path n le off =
        let n_affix : length affix ≡ length split.shared + suc (length split.right_rest) =
          ap length split.y_is ∙ length-append split.shared (split.right ∷ split.right_rest) in
        Above-leaves types look' split.shared extra children c other path none above b
          (omega (arith, n_affix, le))
          (λ z at.
            let n_path = ap length at ∙ length-append split.shared z in
            children_other other z none n (omega (arith, n_affix, n_path, le))
              (λ z' at'. leads.1 other z' (omega (arith, n_affix, n_path, le, ap length at')) (
                affix_behind affix split.shared split.right_rest path z' split.right split.y_is
                  (at ∙ ap (λ y. split.shared ++ y) at') off))
              (λ _. refl))
          (λ _. refl)

    pub extension-Improves :
        Improves types Valid look parents (extension affix p) x key value look' c
    extension-Improves =
        let q' = get_parents_path parents in
        (
          subst (λ w. Reads types look' key c w (some value)) (sym split.x_is)
              (Above-Reads types look' split.shared extra children c key
                (split.left ∷ split.left_rest) (some value) above b
                (two_children_key types Valid law look' key value split.left split.right h q u a_lt
                  b_lt split.differ lu l' split.left_rest)),
          (λ other path r (n, _, _, _) d. elim (read_extension types look other affix p path r d) [
            | inl (w, t', e, f, d') ↦ within_affix other path w r n e (
                Reads-mono types look look' ext (
                  subst (λ y. Reads types look other y w r)
                    (same_element types look look' ext (pointer_hash p) f l) d'))
            | inr (le, off, e) ↦ rw e (off_whole_affix other path n le off)
          ]),
          Above-Shaped types Valid look' q' split.shared extra children c above b
              (set_slot (block_of split.right q) split.left (pointer_to (leaf key value) h), refl)
              (All-shared [] affix split.shared (split.right ∷ split.right_rest) bytes split.y_is)
              (two_children-Shaped types Valid look' (q' ++ split.shared) split.left_rest split.left
                split.right h q u key value a_lt b_lt lu
                (leads.2 ((q' ++ split.shared) ++ split.right ∷ [])
                  (subst (λ w. Shaped types Valid look' w t)
                    (ap (λ w. q' ++ w) split.y_is
                      ∙ two_apart q' split.shared split.right split.right_rest)
                    (Shaped-mono types Valid look look' ext shaped_t))
                  is_node
                  (All-behind affix split.shared split.right split.right_rest bytes split.y_is))
                l' valid
                (encodes
                  ∙ ap ok (
                      ap (λ w. q' ++ w) split.x_is
                      ∙ sym (append_assoc q' split.shared (split.left ∷ split.left_rest))))),
          (λ (b', bad). absurd (ground (arith, bad))),
        )

module _ {K V S E : Type 0} (types : Elements K V) (store : TrieStore K V S E) (Valid : K → Type 0)
    (law : IsElements types Valid) (look : ℕ → Option (Trie K V)) (parents : Parents K V)
    (no_leaves : NoLeaves parents) (key : K) (value : V) (x affix : Bytes) (p : Pointer)
    (t : Trie K V) where
  child_there :
      (look' : ℕ → Option (Trie K V)) (more : Option (ℕ × Trie K V))
      → PresentChild types Valid look parents (extension affix p) x key value look' more
      → (h : ℕ) (u : Trie K V) → more ≡ some (h, u)
      → look' h ≡ some u
  child_there look' none there h u e = absurd (ground (arith, e))
  child_there look' (some (h', u')) there h u e =
      subst (λ (n : ℕ × Trie K V). look' n.0 ≡ some n.1) (some-injective (h', u') (h, u) e) there

  split_extension-Grown :
      Parted x affix
      → look (pointer_hash p) ≡ some t
      → Valid key
      → types.key.to_bytes key ≡ ok (get_parents_path parents ++ x)
      → All (λ b. b < 256) affix
      → Shaped types Valid look (get_parents_path parents ++ affix) t
      → IsNode t
      → Runs
          (new_elements types store
            (get_parents_path parents ++ x)
            key
            value
            (extension affix p)
            parents)
          (Grown types Valid look parents (extension affix p) x key value)
  unfolding new_elements
  split_extension-Grown split l valid encodes bytes shaped_t is_node =
      let q = get_parents_path parents in
      Runs->>= (split_extension types store (q ++ x) affix p parents) _ _ _
        (split_extension-Runs types store parents x affix p split)
        (λ (node', parents', more) (at, is, made).
          rw (at, made.1)
            (Runs->>=_end
              (add_node_to_parents types store (q ++ x)
                (node (block_of split.right (child_pointer p more))) (parents ++ made.0))
              (λ ps. rehash types store (leaf key value) ps) (with_child more)
              (Grown types Valid look parents (extension affix p) x key value)
              (split-Grown types store Valid law look parents no_leaves key value
                (extension affix p) x split.shared split.left_rest split.left split.right
                (child_pointer p more) made.0 more split.x_is made.2
                (λ look' h c ext present l' b.
                  let (u, lu, leads) =
                    ChildOf-Leads types Valid look' split.right_rest p more t is
                      (child_there look' more present) (ext (pointer_hash p) t l) in
                  extension-Improves types Valid law look parents key value x affix p split t l
                    (byte_below types store Valid law look parents no_leaves key value key x
                      split.shared split.left split.left_rest valid encodes split.x_is)
                    (All-at split.shared split.right split.right_rest
                      (subst (All (λ b. b < 256)) split.y_is bytes))
                    valid encodes bytes shaped_t is_node made.0 (child_pointer p more) h look' c u
                    ext made.2 lu leads l' b))))

  pub extension-Grown :
      length affix ≤ length x
      → bytes_eq (take (length affix) x) affix ≡ false
      → look (pointer_hash p) ≡ some t
      → Valid key
      → types.key.to_bytes key ≡ ok (get_parents_path parents ++ x)
      → All (λ b. b < 256) affix
      → Shaped types Valid look (get_parents_path parents ++ affix) t
      → IsNode t
      → Runs
          (new_elements types store
            (get_parents_path parents ++ x)
            key
            value
            (extension affix p)
            parents)
          (Grown types Valid look parents (extension affix p) x key value)
  extension-Grown le off l valid encodes bytes shaped_t is_node =
      split_extension-Grown (Parted-affix x affix le off) l valid encodes bytes shaped_t is_node
