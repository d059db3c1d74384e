-- ===== src/Trie/Tips/Split.antt =====
-- Where a write to execution-engine/engine-storage/src/trie_store/operations/mod.rs splits a path: a node
-- with two children, under an extension with what the paths share.
use casper_labs.Base.{
  ℕ, ◌≤◌, ◌<◌, ◌≡◌, refl, sym, ap, ◌∙◌, false, Bool-cases, Option, none, some, [], ◌∷◌, ◌++◌,
  append-nil, inl, inr, length, ◌==◌, ==_iff, ⊤, All, arith,
}
use mathlib.Core.Path.{subst}
use casper_labs.Bytes.{Bytes, take, drop}
use casper_labs.Bytes.Laws.{take-drop}
use casper_labs.Trie.{
  Pointer, node_pointer, pointer_hash, pointer_update, slot, set_slot, Trie, leaf, node, extension,
}
use casper_labs.Trie.Operations.{
  Elements, TrieStore, pointer_to, add_extension, trie_hash, first_or,
}
use casper_labs.Trie.Operations.Paths.{Parents, bytes_eq, get_parents_path}
use casper_labs.Trie.Reading.{Reads, no_child, child, off_affix, past_affix, bytes_eq→eq}
use casper_labs.Trie.Rebuild.{Rebuilt, Runs, Runs->>=, NoLeaves, trie_hash-Runs}
use casper_labs.Trie.Lift.{hash-pointer_update}
use casper_labs.Trie.Blocks.{block_of, length-block_of, slot-block_of, slot-block_of_other}
use casper_labs.Trie.Shape.{IsElements, Shaped, IsNode}
use casper_labs.Trie.Tips.Shapes.{extension-Shaped}
use casper_labs.Trie.Tips.Slots.{fill_key, fill_other}

module _ {K V : Type 0} where
  -- An extension with what is shared, if anything is
  abbrev pub Above : Bytes → Parents K V → Type 0
  Above [] extra = extra ≡ []
  Above (s ∷ shared) extra = (i : ℕ) × (p : Pointer) × (extra ≡ (i, extension (s ∷ shared) p) ∷ [])

  pub Above-path :
      (shared : Bytes) (extra : Parents K V) → Above shared extra → get_parents_path extra ≡ shared
  unfolding get_parents_path
  Above-path [] extra e = ground (arith, e)
  Above-path (s ∷ shared) extra (i, p, e) = rw e (append-nil (s ∷ shared))

  pub Above-NoLeaves : (shared : Bytes) (extra : Parents K V) → Above shared extra → NoLeaves extra
  Above-NoLeaves [] extra e = rw e tt
  Above-NoLeaves (s ∷ shared) extra (i, p, e) = rw e tt

  module _ (types : Elements K V) (look : ℕ → Option (Trie K V)) where
    pub Above-Reads :
        (shared : Bytes) (extra : Parents K V) (c0 c : Trie K V) (key : K) (path : Bytes)
        (r : Option V)
        → Above shared extra
        → Rebuilt look extra c0 c
        → Reads types look key c0 path r
        → Reads types look key c (shared ++ path) r
    Above-Reads [] extra c0 c key path r e b d =
        let at : c ≡ c0 = subst (λ x. Rebuilt look x c0 c) e b in rw at d
    Above-Reads (s ∷ shared) extra c0 c key path r (i, p, e) b d =
        let (h, t, l, at, at') = subst (λ x. Rebuilt look x c0 c) e b in
        rw at' (
          past_affix s shared (pointer_update h p) ((s ∷ shared) ++ path) path t r refl
            (ap look (hash-pointer_update h p) ∙ l) (rw at d))

    -- A path that leaves what is shared reads nothing.
    pub Above-leaves :
        (shared : Bytes) (extra : Parents K V) (c0 c : Trie K V) (key : K) (path : Bytes)
        (r : Option V)
        → Above shared extra
        → Rebuilt look extra c0 c
        → length shared ≤ length path
        → ((z : Bytes) → path ≡ shared ++ z → Reads types look key c0 z r)
        → (bytes_eq (take (length shared) path) shared ≡ false → r ≡ none)
        → Reads types look key c path r
    Above-leaves [] extra c0 c key path r e b le within without =
        Above-Reads [] extra c0 c key path r e b (within path refl)
    Above-leaves (s ∷ shared) extra c0 c key path r (i, p, e) b le within without =
        let (h, t, l, at, at') = subst (λ x. Rebuilt look x c0 c) e b in
        elim (Bool-cases (bytes_eq (take (length (s ∷ shared)) path) (s ∷ shared))) [
          | inl here ↦
              let rest = drop (length (s ∷ shared)) path in
              let starts : path ≡ (s ∷ shared) ++ rest =
                sym (take-drop (length (s ∷ shared)) path)
                ∙ ap (λ x. x ++ rest)
                    (bytes_eq→eq (take (length (s ∷ shared)) path) (s ∷ shared) here) in
              rw at' (
                past_affix s shared (pointer_update h p) path rest t r starts
                  (ap look (hash-pointer_update h p) ∙ l) (rw at (within rest starts)))
          | inr there ↦
              rw (at', without there) (off_affix (s ∷ shared) (pointer_update h p) path le there)
        ]

module _ {K V : Type 0} (types : Elements K V) (Valid : K → Type 0)
    (look : ℕ → Option (Trie K V)) where
  pub Above-Shaped :
      (q shared : Bytes) (extra : Parents K V) (c0 c : Trie K V)
      → Above shared extra
      → Rebuilt look extra c0 c
      → IsNode c0
      → All (λ b. b < 256) shared
      → Shaped types Valid look (q ++ shared) c0
      → Shaped types Valid look q c
  Above-Shaped q [] extra c0 c e b n bytes shaped =
      let at : c ≡ c0 = subst (λ x. Rebuilt look x c0 c) e b in
      rw at (subst (λ x. Shaped types Valid look x c0) (append-nil q) shaped)
  Above-Shaped q (s ∷ shared) extra c0 c (i, p, e) b n bytes shaped =
      let (h, t, l, at, at') = subst (λ x. Rebuilt look x c0 c) e b in
      rw at' (
        extension-Shaped types Valid look q s shared (pointer_update h p) c0 bytes
          (ap look (hash-pointer_update h p) ∙ l ∙ ap some at) n shaped)

module _ {K V S E : Type 0} (types : Elements K V) (store : TrieStore K V S E) where
  pub add_extension-Runs :
      (i : ℕ) (shared : Bytes) (t : Trie K V) (parents : Parents K V)
      → Runs
          (add_extension types store i shared t parents)
          (λ r. (extra : Parents K V) × (r ≡ parents ++ extra) × Above shared extra)
  unfolding add_extension
  add_extension-Runs i [] t parents = ([], sym (append-nil parents), refl)
  add_extension-Runs i (s ∷ shared) t parents =
      Runs->>= (trie_hash types store t) _ (λ _. ⊤) _ (trie_hash-Runs types store t)
        (λ h _.
          ((i, extension (s ∷ shared) (node_pointer h)) ∷ [], refl, (i, node_pointer h, refl)))

module _ {K V : Type 0} (types : Elements K V) (Valid : K → Type 0) (law : IsElements types Valid)
    (look : ℕ → Option (Trie K V)) (key : K) (value : V) (a b h : ℕ) (p : Pointer) (u : Trie K V)
    (a_lt : a < 256) (b_lt : b < 256) (differ : (a == b) ≡ false)
    (leads : look (pointer_hash p) ≡ some u) (there : look h ≡ some (leaf key value)) where
  -- A node with a leaf and one more child
  abbrev pub two_children : Trie K V
  two_children = node (set_slot (block_of b p) a (pointer_to (leaf key value) h))

  pub two_children_key : (x : Bytes) → Reads types look key two_children (a ∷ x) (some value)
  two_children_key x =
      fill_key types Valid law look look (λ j t e. e) key value (block_of b p) a x h
        (omega (arith, length-block_of b p)) there

  pub two_children_other :
      (other : K) (path : Bytes) (r : Option V)
      → (other ≡ key → ⊥)
      → 0 < length path
      → ((z : Bytes) → path ≡ b ∷ z → Reads types look other u z r)
      → (((z : Bytes) → path ≡ b ∷ z → ⊥) → r ≡ none)
      → Reads types look other two_children path r
  two_children_other other [] r n lt within without = absurd (omega arith)
  two_children_other other (j ∷ z) r n lt within without =
      fill_other types Valid law look look (λ j t e. e) key value (block_of b p) a h other (j ∷ z) r
        (slot-block_of_other a b p differ) (omega (arith, length-block_of b p)) there n
        (elim (Bool-cases (j == b)) [
          | inl here ↦
              let at : j ≡ b = (==_iff j b).0 here in
              child (block_of b p) j z p u r (ap (slot (block_of b p)) at ∙ slot-block_of b p b_lt)
                leads (within z (ap (λ i. i ∷ z) at))
          | inr elsewhere ↦
              subst (λ x. Reads types look other (node (block_of b p)) (j ∷ z) x)
                (sym (without (λ z' at. ground (arith, elsewhere, ap (first_or 0) at))))
                (no_child (block_of b p) j z (slot-block_of_other j b p elsewhere))
        ])
