-- ===== src/Trie/Tips/Leaves.antt =====
-- `reparent_leaf` of execution-engine/engine-storage/src/trie_store/operations/mod.rs: a write at a leaf
-- of another key.
use casper_labs.Base.{
  ℕ, ◌<◌, ◌≡◌, refl, sym, ap, ◌∙◌, Option, none, some, [], ◌∷◌, ◌++◌, append-nil, append_assoc,
  length, length-append, ok, arith,
}
use mathlib.Core.Path.{subst}
use casper_labs.Bytes.{Bytes}
use casper_labs.Trie.{
  Pointer, pointer_hash, slot, set_slot, PointerBlock, Trie, leaf, node, extension, node_of,
}
use casper_labs.Trie.Operations.{Elements, TrieStore, pointer_to, add_extension, reparent_leaf}
use casper_labs.Trie.Operations.Paths.{Parents, get_parents_path, last_of}
use casper_labs.Trie.Reading.{Reads, at_key, at_other}
use casper_labs.Trie.Rebuild.{Rebuilt, Runs, Runs->>=, NoLeaves}
use casper_labs.Trie.Shape.{shaped_leaf, IsElements}
use casper_labs.Trie.Prefixes.{
  Parted, parted, NotPrefix-cancel, RoundTrips-NotPrefix, common_prefix-append, byte_at-append,
  tail_from-append, append_cancel, two_apart, All-shared, ok_same,
}
use casper_labs.Trie.Tips.{IsOther, Improves}
use casper_labs.Trie.Blocks.{block_of}
use casper_labs.Trie.Tips.Shapes.{two_children-Shaped}
use casper_labs.Trie.Tips.Split.{
  Above-Shaped, Above, Above-Reads, Above-leaves, add_extension-Runs, two_children_key,
  two_children_other,
}

module _ {K V S E : Type 0} (types : Elements K V) (store : TrieStore K V S E) (Valid : K → Type 0)
    (law : IsElements types Valid) (look : ℕ → Option (Trie K V)) (parents : Parents K V)
    (no_leaves : NoLeaves parents) (key : K) (value : V) where
  pub reparent_leaf-Runs :
      (x y : Bytes) (split : Parted x y) (i : ℕ) (block : PointerBlock) (p : Pointer)
      → last_of parents ≡ some (i, node block)
      → slot block i ≡ some p
      → Runs
          (reparent_leaf types store
            (get_parents_path parents ++ x)
            (get_parents_path parents ++ y)
            parents)
          (λ (t, parents').
            (t ≡ node (block_of split.right p))
            × ((extra : Parents K V) × (parents' ≡ parents ++ extra) × Above split.shared extra))
  unfolding reparent_leaf
  reparent_leaf-Runs x y split i block p last o =
      let q = get_parents_path parents in
      let t = node_of split.right p in
      rw
        (
          last,
          common_prefix-append q x y,
          split.same,
          split.y_is,
          ← append_assoc q split.shared (split.right ∷ split.right_rest),
          byte_at-append {E = E} (q ++ split.shared) split.right split.right_rest,
          o,
          tail_from-append {E = E} q split.shared,
        )
        (Runs->>= (add_extension types store i split.shared t parents) _ _ _
          (add_extension-Runs types store i split.shared t parents) (λ r made. (refl, made)))

  module _ (x y : Bytes) (k : K) (old : V) (valid : Valid key) (valid' : Valid k)
      (encodes : types.key.to_bytes key ≡ ok (get_parents_path parents ++ x))
      (encodes' : types.key.to_bytes k ≡ ok (get_parents_path parents ++ y))
      (distinct : key ≡ k → ⊥) where
    abbrev other_leaf : Trie K V
    other_leaf = leaf k old

    pub Parted-keys : Parted x y
    Parted-keys =
        let q = get_parents_path parents in
        parted x y
          (NotPrefix-cancel q x y (
            RoundTrips-NotPrefix types.key Valid key k (q ++ x) (q ++ y) law.keys_read valid valid'
              distinct encodes encodes'))
          (NotPrefix-cancel q y x (
            RoundTrips-NotPrefix types.key Valid k key (q ++ y) (q ++ x) law.keys_read valid' valid
              (λ e. distinct (sym e)) encodes' encodes))

    beyond :
        (split : Parted x y) (other : K) (rest' z : Bytes)
        → IsOther types Valid look parents (leaf k old) x key value other rest'
        → rest' ≡ split.shared ++ z
        → 0 < length z
    beyond split other rest' (i ∷ z) _ at = omega arith
    beyond split other rest' [] (n, v, e, _) at =
        let q = get_parents_path parents in
        let ends : split.shared ≡ rest' = sym (append-nil split.shared) ∙ sym at in
        absurd (
          NotPrefix-cancel q rest' x
            (RoundTrips-NotPrefix types.key Valid other key (q ++ rest') (q ++ x) law.keys_read v
              valid n e encodes)
            (split.left ∷ split.left_rest)
            (split.x_is ∙ ap (λ w. w ++ split.left ∷ split.left_rest) ends))

    module _ (split : Parted x y) (extra : Parents K V) (p : Pointer) (h : ℕ)
        (look' : ℕ → Option (Trie K V)) (c : Trie K V) (a_lt : split.left < 256)
        (b_lt : split.right < 256) (below : 0 < length (get_parents_path parents))
        (above : Above split.shared extra) (l : look' (pointer_hash p) ≡ some (leaf k old))
        (l' : look' h ≡ some (leaf key value))
        (b : Rebuilt look' extra
          (node (set_slot (block_of split.right p) split.left (pointer_to (leaf key value) h)))
          c) where
      abbrev children : Trie K V
      children = node (set_slot (block_of split.right p) split.left (pointer_to (leaf key value) h))

      children_other :
          (other : K) (path : Bytes) (r : Option V)
          → (other ≡ key → ⊥)
          → 0 < length path
          → ((z : Bytes) → path ≡ split.right ∷ z → Reads types look' other (leaf k old) z r)
          → (((z : Bytes) → path ≡ split.right ∷ z → ⊥) → r ≡ none)
          → Reads types look' other children path r
      children_other =
          two_children_other types Valid law look' key value split.left split.right h p (leaf k old)
            a_lt b_lt split.differ l l'

      other_leaf_keeps :
          (k' : K) (old' : V) (other : K) (rest' : Bytes) (r : Option V)
          → k' ≡ k
          → old' ≡ old
          → IsOther types Valid look parents (leaf k old) x key value other rest'
          → Reads types look other (leaf k' old') rest' r
          → Reads types look' other c rest' r
      other_leaf_keeps _ _ other _ _ same same' (n, v, e, _) (at_key k' old' rest' is) =
          let at = law.key_eq_sound other k' is ∙ same in
          let ends : rest' ≡ split.shared ++ split.right ∷ split.right_rest =
            append_cancel (get_parents_path parents) rest' y
              (ok_same (types.key.to_bytes k) (ap types.key.to_bytes (sym at) ∙ e) encodes')
            ∙ split.y_is in
          subst (λ w. Reads types look' other c w (some old')) (sym ends)
            (Above-Reads types look' split.shared extra children c other
              (split.right ∷ split.right_rest) (some old') above b
              (children_other other (split.right ∷ split.right_rest) (some old') n (omega arith)
                (λ z _. rw same' (at_key k old z (rw (← same) is)))
                (λ no. absurd (no split.right_rest refl))))
      other_leaf_keeps _ _ other _ _ same same' (n, v, e, long) (at_other k' old' rest' is) =
          Above-leaves types look' split.shared extra children c other rest' none above b
            (omega (
              arith,
              long below,
              ap length split.x_is,
              length-append split.shared (split.left ∷ split.left_rest),
            ))
            (λ z at.
              children_other other z none n (beyond split other rest' z (n, v, e, long) at)
                (λ z' _. at_other k old z' (rw (← same) is)) (λ _. refl))
            (λ _. refl)

      pub other_leaf-Improves : Improves types Valid look parents (leaf k old) x key value look' c
      other_leaf-Improves =
          let q = get_parents_path parents in
          (
            subst (λ w. Reads types look' key c w (some value)) (sym split.x_is)
                (Above-Reads types look' split.shared extra children c key
                  (split.left ∷ split.left_rest) (some value) above b
                  (two_children_key types Valid law look' key value split.left split.right h p
                    (leaf k old) a_lt b_lt split.differ l l' split.left_rest)),
            (λ other rest' r is d. other_leaf_keeps k old other rest' r refl refl is d),
            Above-Shaped types Valid look' q split.shared extra children c above b
                (set_slot (block_of split.right p) split.left (pointer_to (leaf key value) h), refl)
                (All-shared q x split.shared (split.left ∷ split.left_rest)
                  (law.keys_bytes key (q ++ x) valid encodes) split.x_is)
                (two_children-Shaped types Valid look' (q ++ split.shared) split.left_rest
                  split.left split.right h p (leaf k old) key value a_lt b_lt l
                  (shaped_leaf ((q ++ split.shared) ++ split.right ∷ []) split.right_rest k old
                    valid'
                    (encodes'
                      ∙ ap ok (
                          ap (λ w. q ++ w) split.y_is
                          ∙ two_apart q split.shared split.right split.right_rest)))
                  l' valid
                  (encodes
                    ∙ ap ok (
                        ap (λ w. q ++ w) split.x_is
                        ∙ sym (append_assoc q split.shared (split.left ∷ split.left_rest))))),
            (λ (b', bad). absurd (ground (arith, bad))),
          )

  pub Hangs-below :
      (ps : Parents K V) (i : ℕ) (block : PointerBlock)
      → last_of ps ≡ some (i, node block)
      → 0 < length (get_parents_path ps)
  unfolding last_of get_parents_path
  Hangs-below [] i block e = absurd (ground (arith, e))
  Hangs-below ((j, leaf _ _) ∷ ps) i block e = omega arith
  Hangs-below ((j, node _) ∷ ps) i block e = omega arith
  Hangs-below ((j, extension _ _) ∷ []) i block e = absurd (ground (arith, e))
  Hangs-below ((j, extension affix _) ∷ next ∷ ps) i block e =
      omega (
        arith,
        length-append affix (get_parents_path (next ∷ ps)),
        Hangs-below (next ∷ ps) i block e,
      )
