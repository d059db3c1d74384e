-- ===== src/Trie/Writing.antt =====
-- `write` of execution-engine/engine-storage/src/trie_store/operations/mod.rs as a whole.
use casper_labs.Base.{
  ℕ, ◌≡◌, refl, sym, ap, ◌∙◌, true, Bool-cases, Option, some, List, [], ◌∷◌, ◌++◌, ◌⊎◌, inl, inr,
  ok, arith,
}
use casper_labs.Bytes.{Bytes}
use casper_labs.Trie.{PointerBlock, Trie, leaf, node, extension}
use casper_labs.Trie.Operations.{Elements, TrieStore, new_elements}
use casper_labs.Trie.Operations.Paths.{Parents, get_parents_path}
use casper_labs.Trie.Reading.{Reads, at_key, at_other}
use casper_labs.Trie.Rebuild.{Runs, Runs_mono}
use casper_labs.Trie.Spine.{Spine, IsTip}
use casper_labs.Trie.Shape.{
  IsElements, Shaped, Spine-Hangs, Spine-NoLeaves, Shaped-length, Shaped-key, Shaped-affix,
  Shaped-extension_below,
}
use casper_labs.Trie.Tips.{Grown}
use casper_labs.Trie.Tips.Slots.{node-Grown, leaf-Grown}
use casper_labs.Trie.Tips.Reparent.{other_leaf-Grown, byte_below}
use casper_labs.Trie.Tips.Extended.{extension-Grown}

module _ {K V S E : Type 0} (types : Elements K V) (store : TrieStore K V S E) (Valid : K → Type 0)
    (law : IsElements types Valid) (look : ℕ → Option (Trie K V)) (parents : Parents K V) (key : K)
    (value : V) (rest : Bytes) (block : PointerBlock) (r : Option V) where
  -- What `new_elements` makes: nothing, if the value is there, or what improves the tip.
  abbrev pub Made : Trie K V → List (ℕ × Trie K V) → Type 0
  Made tip es =
      ((es ≡ []) × (r ≡ some value)) ⊎ Grown types Valid look parents tip rest key value es

  same_leaf :
      (k : K) (old : V) (rest' : Bytes) (r' : Option V)
      → Reads types look key (leaf k old) rest' r'
      → types.key_eq key k ≡ true
      → r' ≡ some old
  same_leaf _ _ _ _ (at_key k old rest' e) h = refl
  same_leaf _ _ _ _ (at_other k old rest' e) h = absurd (ground (arith, e, h))

  module _ (spine_shaped : Shaped types Valid look [] (node block)) (valid : Valid key)
      (encodes : types.key.to_bytes key ≡ ok (get_parents_path parents ++ rest)) where
    leaf-Made :
        (k : K) (old : V)
        → Spine look parents (node block) (get_parents_path parents ++ rest) (leaf k old) rest
        → Shaped types Valid look (get_parents_path parents) (leaf k old)
        → Reads types look key (leaf k old) rest r
        → Runs
            (new_elements types store
              (get_parents_path parents ++ rest)
              key
              value
              (leaf k old)
              parents)
            (Made (leaf k old))
    unfolding new_elements
    leaf-Made k old spine shaped d =
        let n =
          Spine-NoLeaves types Valid look parents (get_parents_path parents ++ rest) rest
            (node block) (leaf k old) spine in
        let path = get_parents_path parents ++ rest in
        elim (Bool-cases (types.key_eq key k)) [
          | inl same ↦ elim (Bool-cases (types.value_eq value old)) [
            | inl there ↦
                rw (same, there)
                  (inl (
                    refl,
                    same_leaf k old rest r d same
                        ∙ ap some (sym (law.value_eq_sound value old there)),
                  ))
            | inr changed ↦
                Runs_mono (new_elements types store path key value (leaf k old) parents) _ _
                  (leaf-Grown types store Valid law look parents n key value path rest k old same
                    changed valid encodes)
                  (λ es g. inr g)
          ]
          | inr differ ↦
              let (y, valid', encodes') = Shaped-key types Valid look shaped in
              Runs_mono (new_elements types store path key value (leaf k old) parents) _ _
                (other_leaf-Grown types store Valid law look parents n key value rest y k old valid
                  valid' encodes encodes' differ
                  (Spine-Hangs types Valid look parents path rest block k old spine spine_shaped))
                (λ es g. inr g)
        ]

    pub new_elements-Made :
        (tip : Trie K V)
        → Spine look parents (node block) (get_parents_path parents ++ rest) tip rest
        → Shaped types Valid look (get_parents_path parents) tip
        → IsTip look tip rest
        → Reads types look key tip rest r
        → Runs
            (new_elements types store (get_parents_path parents ++ rest) key value tip parents)
            (Made tip)
    new_elements-Made (leaf k old) spine shaped stops d = leaf-Made k old spine shaped d
    new_elements-Made (node b) spine shaped (i, rest', e, free) d =
        let n =
          Spine-NoLeaves types Valid look parents (get_parents_path parents ++ rest) rest
            (node block) (node b) spine in
        let lt =
          byte_below types store Valid law look parents n key value key rest [] i rest' valid
            encodes e in
        rw e (
          Runs_mono
            (new_elements types store (get_parents_path parents ++ i ∷ rest') key value (node b)
              parents)
            _ _
            (node-Grown types store Valid law look parents n key value b i rest' free
              (omega (arith, lt, Shaped-length types Valid look shaped)) shaped valid
              (encodes ∙ ap (λ w. ok (get_parents_path parents ++ w)) e))
            (λ es g. inr g))
    new_elements-Made (extension affix p) spine shaped (le, off) d =
        let n =
          Spine-NoLeaves types Valid look parents (get_parents_path parents ++ rest) rest
            (node block) (extension affix p) spine in
        let (bytes, (t, l)) = Shaped-affix types Valid look shaped in
        let (shaped_t, is_node) = Shaped-extension_below types Valid look shaped t l in
        Runs_mono
          (new_elements types store (get_parents_path parents ++ rest) key value (extension affix p)
            parents)
          _ _
          (extension-Grown types store Valid law look parents n key value rest affix p t le off l
            valid encodes bytes shaped_t is_node)
          (λ es g. inr g)
