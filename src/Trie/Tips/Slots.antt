-- ===== src/Trie/Tips/Slots.antt =====
-- `write` of execution-engine/engine-storage/src/trie_store/operations/mod.rs at a free slot of a node,
-- and at a leaf of the same key.
use casper_labs.Base.{
  ℕ, ◌<◌, ◌≡◌, refl, sym, ap, ◌∙◌, true, false, Bool-cases, Option, none, some, [], ◌∷◌, ◌++◌,
  append-nil, inl, inr, length, ok, ◌==◌, ==_iff, arith,
}
use casper_labs.Bytes.{Bytes}
use casper_labs.Trie.{pointer_hash, slot, set_slot, PointerBlock, Trie, leaf, node}
use casper_labs.Trie.Operations.{
  Elements, TrieStore, pointer_to, add_node_to_parents, new_elements, rehash,
}
use casper_labs.Trie.Operations.Paths.{Parents, get_parents_path}
use casper_labs.Trie.Reading.{Reads, at_key, at_other, no_child, child, bytes_eq_refl}
use casper_labs.Trie.Rebuild.{Extends, Runs, Runs_mono, NoLeaves, NoLeaves-append, rehash-Runs}
use casper_labs.Trie.Lift.{Reads-mono}
use casper_labs.Trie.Blocks.{slot-set_slot, slot-set_slot_other}
use casper_labs.Trie.Shape.{IsElements, Shaped, shaped_leaf}
use casper_labs.Trie.Tips.Shapes.{set_slot-Shaped, leaf-Shaped}
use casper_labs.Trie.Prefixes.{common_prefix_self, byte_at-append}
use casper_labs.Trie.Tips.{Grown, Rehashed-Grown}

pub key_eq_distinct :
    {K V : Type 0} {types : Elements K V} {Valid : K → Type 0}
    → IsElements types Valid
    → (a b : K) → (a ≡ b → ⊥)
    → types.key_eq a b ≡ false
key_eq_distinct {types = types} law a b n = elim (Bool-cases (types.key_eq a b)) [
  | inl h ↦ absurd (n (law.key_eq_sound a b h))
  | inr h ↦ h
]

module _ {K V S E : Type 0} (types : Elements K V) (store : TrieStore K V S E) where
  pub add_node_to_parents_lem :
      (q : Bytes) (i : ℕ) (x : Bytes) (block : PointerBlock) (parents : Parents K V)
      → get_parents_path parents ≡ q
      → add_node_to_parents types store (q ++ i ∷ x) (node block) parents
        ≡ ok (parents ++ (i, node block) ∷ [])
  unfolding add_node_to_parents
  add_node_to_parents_lem q i x block parents e =
      ground (arith, e, common_prefix_self q (i ∷ x), bytes_eq_refl q, byte_at-append {E = E} q i x)

module _ {K V : Type 0} (types : Elements K V) (Valid : K → Type 0) (law : IsElements types Valid)
    (look look' : ℕ → Option (Trie K V)) (ext : Extends look look') (key : K) (value : V) where
  -- A leaf in a slot that was free is found by its key,
  pub fill_key :
      (block : PointerBlock) (i : ℕ) (x : Bytes) (h : ℕ)
      → i < length block
      → look' h ≡ some (leaf key value)
      → Reads types look' key
          (node (set_slot block i (pointer_to (leaf key value) h)))
          (i ∷ x)
          (some value)
  fill_key block i x h lt l =
      let p = pointer_to (leaf key value) h in
      child (set_slot block i p) i x p (leaf key value) (some value) (slot-set_slot block i p lt) l
        (at_key key value x (law.key_eq_refl key))

  -- and does not show for other keys.
  pub fill_other :
      (block : PointerBlock) (i h : ℕ) (other : K) (path : Bytes) (r : Option V)
      → slot block i ≡ none
      → i < length block
      → look' h ≡ some (leaf key value)
      → (other ≡ key → ⊥)
      → Reads types look other (node block) path r
      → Reads types look' other (node (set_slot block i (pointer_to (leaf key value) h))) path r
  fill_other _ i h other _ r free lt l n (no_child block j x e) =
      let p = pointer_to (leaf key value) h in
      elim (Bool-cases (j == i)) [
        | inl here ↦
            child (set_slot block i p) j x p (leaf key value) none
              (ap (slot (set_slot block i p)) ((==_iff j i).0 here) ∙ slot-set_slot block i p lt) l
              (at_other key value x (key_eq_distinct law other key n))
        | inr there ↦ no_child _ j x (slot-set_slot_other block i j p there ∙ e)
      ]
  fill_other _ i h other _ r free lt l n (child block j x p2 t _ e f d) =
      let p = pointer_to (leaf key value) h in
      elim (Bool-cases (j == i)) [
        | inl here ↦ absurd (ground (arith, e, free, (==_iff j i).0 here))
        | inr there ↦
            child _ j x p2 t r (slot-set_slot_other block i j p there ∙ e)
              (ext (pointer_hash p2) t f) (Reads-mono types look look' ext d)
      ]

  -- Nor does a new value of the leaf.
  replace_other :
      (k : K) (old : V) (other : K) (path path' : Bytes) (r : Option V)
      → k ≡ key
      → (other ≡ key → ⊥)
      → Reads types look other (leaf k old) path r
      → Reads types look' other (leaf key value) path' r
  replace_other _ _ other _ path' _ at n (at_key k old path e) =
      absurd (n (law.key_eq_sound other k e ∙ at))
  replace_other _ _ other _ path' _ at n (at_other k old path e) =
      at_other key value path' (key_eq_distinct law other key n)

module _ {K V S E : Type 0} (types : Elements K V) (store : TrieStore K V S E) (Valid : K → Type 0)
    (law : IsElements types Valid) (look : ℕ → Option (Trie K V)) (parents : Parents K V)
    (no_leaves : NoLeaves parents) (key : K) (value : V) where
  pub node-Grown :
      (block : PointerBlock) (i : ℕ) (x : Bytes)
      → slot block i ≡ none
      → i < length block
      → Shaped types Valid look (get_parents_path parents) (node block)
      → Valid key
      → types.key.to_bytes key ≡ ok (get_parents_path parents ++ i ∷ x)
      → Runs
          (new_elements types store
            (get_parents_path parents ++ i ∷ x)
            key
            value
            (node block)
            parents)
          (Grown types Valid look parents (node block) (i ∷ x) key value)
  unfolding new_elements
  node-Grown block i x free lt shaped valid encodes =
      rw (add_node_to_parents_lem types store (get_parents_path parents) i x block parents refl) (
        Runs_mono (rehash types store (leaf key value) (parents ++ (i, node block) ∷ [])) _ _
          (rehash-Runs types store (leaf key value) (parents ++ (i, node block) ∷ [])
            (NoLeaves-append parents ((i, node block) ∷ []) no_leaves tt))
          (λ elements made.
            Rehashed-Grown types Valid look parents (node block) (i ∷ x) key value
              ((i, node block) ∷ []) none elements made
              (λ look' c ext _ (h, t, l, e, e').
                rw (e', e)
                  (
                    fill_key types Valid law look look' ext key value block i x h lt
                        (l ∙ ap some e),
                    (λ other rest' r (n, _, _, _) d.
                        fill_other types Valid law look look' ext key value block i h other rest' r
                          free lt (l ∙ ap some e) n d),
                    set_slot-Shaped types Valid look look' ext (get_parents_path parents) block i
                        (pointer_to (leaf key value) h) (leaf key value) shaped lt (l ∙ ap some e)
                        (leaf-Shaped types Valid look' (get_parents_path parents) (i ∷ []) x key
                          value valid encodes),
                    (λ _. (set_slot block i (pointer_to (leaf key value) h), refl)),
                  ))))

  pub leaf-Grown :
      (path rest : Bytes) (k : K) (old : V)
      → types.key_eq key k ≡ true
      → types.value_eq value old ≡ false
      → Valid key
      → types.key.to_bytes key ≡ ok (get_parents_path parents ++ rest)
      → Runs
          (new_elements types store path key value (leaf k old) parents)
          (Grown types Valid look parents (leaf k old) rest key value)
  unfolding new_elements
  leaf-Grown path rest k old same changed valid encodes =
      rw (same, changed)
        (Runs_mono (rehash types store (leaf key value) parents) _ _
          (rehash-Runs types store (leaf key value) parents no_leaves)
          (λ elements made.
            Rehashed-Grown types Valid look parents (leaf k old) rest key value [] none elements
              (rw (append-nil parents) made)
              (λ look' c ext _ e. rw e (
                at_key key value rest (law.key_eq_refl key),
                (λ other rest' r (n, _, _, _) d.
                    replace_other types Valid law look look' ext key value k old other rest' rest' r
                      (sym (law.key_eq_sound key k same)) n d),
                shaped_leaf (get_parents_path parents) rest key value valid encodes,
                (λ (b, bad). absurd (ground (arith, bad))),
              ))))
