-- ===== src/Trie/Tips/Reparent.antt =====
-- `write` of execution-engine/engine-storage/src/trie_store/operations/mod.rs at a leaf of another key.
use casper_labs.Base.{
  ℕ, ◌<◌, ◌≡◌, sym, ap, ◌∙◌, false, Option, none, [], ◌∷◌, ◌++◌, append_assoc, ok, All, arith,
}
use mathlib.Core.Path.{subst}
use casper_labs.Bytes.{Bytes}
use casper_labs.Trie.{pointer_hash, Trie, leaf}
use casper_labs.Trie.Operations.{Elements, TrieStore, reparent_leaf, new_elements}
use casper_labs.Trie.Operations.Paths.{Parents, get_parents_path}
use casper_labs.Trie.Rebuild.{Runs, Runs->>=, NoLeaves}
use casper_labs.Trie.Shape.{IsElements, Hangs}
use casper_labs.Trie.Prefixes.{Parted}
use casper_labs.Trie.Tips.{Grown}
use casper_labs.Trie.Tips.Rejoin.{split-Grown}
use casper_labs.Trie.Tips.Leaves.{Parted-keys, other_leaf-Improves, reparent_leaf-Runs, Hangs-below}

pub All-at : (u : Bytes) (a : ℕ) (v : Bytes) → All (λ b. b < 256) (u ++ a ∷ v) → a < 256
All-at [] a v (h, _) = h
All-at (b ∷ u) a v (_, rest) = All-at u a v rest

module _ {K V S E : Type 0} (types : Elements K V) (store : TrieStore K V S E) (Valid : K → Type 0)
    (law : IsElements types Valid) (look : ℕ → Option (Trie K V)) (parents : Parents K V)
    (no_leaves : NoLeaves parents) (key : K) (value : V) where
  pub byte_below :
      (k : K) (x shared : Bytes) (a : ℕ) (v : Bytes)
      → Valid k
      → types.key.to_bytes k ≡ ok (get_parents_path parents ++ x)
      → x ≡ shared ++ a ∷ v
      → a < 256
  byte_below k x shared a v valid e at =
      let q = get_parents_path parents in
      All-at (q ++ shared) a v (
        subst (All (λ b. b < 256)) (ap (λ w. q ++ w) at ∙ sym (append_assoc q shared (a ∷ v)))
          (law.keys_bytes k (q ++ x) valid e))

  module _ (x y : Bytes) (k : K) (old : V) (valid : Valid key) (valid' : Valid k)
      (encodes : types.key.to_bytes key ≡ ok (get_parents_path parents ++ x))
      (encodes' : types.key.to_bytes k ≡ ok (get_parents_path parents ++ y))
      (differ : types.key_eq key k ≡ false) where
    distinct : key ≡ k → ⊥
    distinct e = absurd (ground (arith, differ, ap (types.key_eq key) (sym e), law.key_eq_refl key))

    split_leaf-Grown :
        Parted x y
        → Hangs types Valid look parents (leaf k old)
        → Runs
            (new_elements types store
              (get_parents_path parents ++ x)
              key
              value
              (leaf k old)
              parents)
            (Grown types Valid look parents (leaf k old) x key value)
    unfolding new_elements
    split_leaf-Grown split (i, block, p, last, o, l) =
        let q = get_parents_path parents in
        rw (differ, encodes')
          (Runs->>= (reparent_leaf types store (q ++ x) (q ++ y) parents) _ _ _
            (reparent_leaf-Runs types store Valid law look parents no_leaves key value x y split i
              block p last o)
            (λ (t, parents') (at, made).
              rw (at, made.1)
                (split-Grown types store Valid law look parents no_leaves key value (leaf k old) x
                  split.shared split.left_rest split.left split.right p made.0 none split.x_is
                  made.2
                  (λ look' h c ext _ l' b.
                    other_leaf-Improves types store Valid law look parents no_leaves key value x y k
                      old valid valid' encodes encodes' distinct split made.0 p h look' c
                      (byte_below key x split.shared split.left split.left_rest valid encodes
                        split.x_is)
                      (byte_below k y split.shared split.right split.right_rest valid' encodes'
                        split.y_is)
                      (Hangs-below types store Valid law look parents no_leaves key value parents i
                        block last)
                      made.2 (ext (pointer_hash p) (leaf k old) l) l' b))))

    pub other_leaf-Grown :
        Hangs types Valid look parents (leaf k old)
        → Runs
            (new_elements types store
              (get_parents_path parents ++ x)
              key
              value
              (leaf k old)
              parents)
            (Grown types Valid look parents (leaf k old) x key value)
    other_leaf-Grown hangs =
        split_leaf-Grown
          (Parted-keys types store Valid law look parents no_leaves key value x y k old valid valid'
            encodes encodes' distinct)
          hangs
