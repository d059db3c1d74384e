-- ===== src/Trie/Tips/Extensions.antt =====
-- `split_extension` of execution-engine/engine-storage/src/trie_store/operations/mod.rs.
use casper_labs.Base.{
  ℕ, ◌≤◌, ◌<◌, ◌≡◌, refl, false, Option, none, some, [], ◌∷◌, ◌++◌, append_assoc, append-nil, ◌⊎◌,
  inl, inr, length, All, ⊤, All, arith,
}
use mathlib.Core.Path.{subst}
use casper_labs.Bytes.{Bytes, take}
use casper_labs.Trie.{Pointer, pointer_hash, Trie, node, extension, node_of}
use casper_labs.Trie.Operations.{
  Elements, TrieStore, split_extension, child_extension, child_pointer, add_extension, first_or,
  trie_hash,
}
use casper_labs.Trie.Operations.Paths.{Parents, get_parents_path, bytes_eq}
use casper_labs.Trie.Reading.{Reads, off_affix, past_affix}
use casper_labs.Trie.Rebuild.{Runs, Runs->>=, trie_hash-Runs}
use casper_labs.Trie.Shape.{Shaped, IsNode}
use casper_labs.Trie.Tips.Shapes.{extension-Shaped}
use casper_labs.Trie.Prefixes.{
  Parted, common_prefix-append, byte_at-append, tail_from-append, tail_from-behind,
}
use casper_labs.Trie.Blocks.{block_of}
use casper_labs.Trie.Tips.Split.{Above, add_extension-Runs}

module _ {K V : Type 0} where
  -- The rest of an affix, as an extension of its own, where there is any
  abbrev pub ChildOf : Bytes → Pointer → Option (ℕ × Trie K V) → Type 0
  ChildOf [] p more = more ≡ none
  ChildOf (a ∷ rest) p more = (h : ℕ) × (more ≡ some (h, extension (a ∷ rest) p))

  module _ (types : Elements K V) (Valid : K → Type 0) (look : ℕ → Option (Trie K V)) where
    abbrev pub Leads : Bytes → Trie K V → Trie K V → Type 0
    Leads rest t u =
        ((other : K) (w : Bytes) (r : Option V)
          → Reads types look other t w r
          → Reads types look other u (rest ++ w) r)
        × ((other : K) (w : Bytes)
            → length rest ≤ length w
            → bytes_eq (take (length rest) w) rest ≡ false
            → Reads types look other u w none)
        × ((q : Bytes)
            → Shaped types Valid look (q ++ rest) t
            → IsNode t
            → All (λ b. b < 256) rest
            → Shaped types Valid look q u)

    pub ChildOf-Leads :
        (rest : Bytes) (p : Pointer) (more : Option (ℕ × Trie K V)) (t : Trie K V)
        → ChildOf rest p more
        → ((h : ℕ) (u : Trie K V) → more ≡ some (h, u) → look h ≡ some u)
        → look (pointer_hash p) ≡ some t
        → (u : Trie K V) × (look (pointer_hash (child_pointer p more)) ≡ some u) × Leads rest t u
    ChildOf-Leads [] p more t e present l = (
      t,
      rw e l,
      (
        (λ other w r d. d),
        (λ other w le off. absurd (ground (arith, off))),
        (λ q s n bytes. subst (λ x. Shaped types Valid look x t) (append-nil q) s),
      ),
    )
    ChildOf-Leads (a ∷ rest) p more t (h, e) present l = (
      extension (a ∷ rest) p,
      rw e (present h (extension (a ∷ rest) p) e),
      (
        (λ other w r d. past_affix a rest p ((a ∷ rest) ++ w) w t r refl l d),
        (λ other w le off. off_affix (a ∷ rest) p w le off),
        (λ q s n bytes. extension-Shaped types Valid look q a rest p t bytes l n s),
      ),
    )

  module _ (types : Elements K V) (look : ℕ → Option (Trie K V)) where
    abbrev pub ReadExtension : K → Bytes → Pointer → Bytes → Option V → Type 0
    ReadExtension other affix p path r =
        ((w : Bytes) × (t : Trie K V) × (path ≡ affix ++ w)
          × (look (pointer_hash p) ≡ some t)
          × Reads types look other t w r)
        ⊎ ((length affix ≤ length path)
            × (bytes_eq (take (length affix) path) affix ≡ false)
            × (r ≡ none))

    pub read_extension :
        (other : K) (affix : Bytes) (p : Pointer) (path : Bytes) (r : Option V)
        → Reads types look other (extension affix p) path r
        → ReadExtension other affix p path r
    read_extension other _ p _ _ (off_affix affix _ path le e) = inr (le, e, refl)
    read_extension other _ p _ _ (past_affix a affix _ path rest t r e l d) = inl (rest, t, e, l, d)

module _ {K V S E : Type 0} (types : Elements K V) (store : TrieStore K V S E) where
  child_extension-Runs :
      (rest : Bytes) (p : Pointer) → Runs (child_extension types store rest p) (ChildOf rest p)
  unfolding child_extension
  child_extension-Runs [] p = refl
  child_extension-Runs (a ∷ rest) p =
      Runs->>= (trie_hash types store (extension (a ∷ rest) p)) _ (λ _. ⊤) _
        (trie_hash-Runs types store (extension (a ∷ rest) p)) (λ h _. (h, refl))

  module _ (parents : Parents K V) (x affix : Bytes) (p : Pointer) (split : Parted x affix) where
    abbrev pub IsSplit : Trie K V × Parents K V × Option (ℕ × Trie K V) → Type 0
    IsSplit (t, parents', more) =
        (t ≡ node (block_of split.right (child_pointer p more)))
        × ChildOf split.right_rest p more
        × ((extra : Parents K V) × (parents' ≡ parents ++ extra) × Above split.shared extra)

    pub split_extension-Runs :
        Runs (split_extension types store (get_parents_path parents ++ x) affix p parents) IsSplit
    unfolding split_extension
    split_extension-Runs =
        let q = get_parents_path parents in
        rw
          (
            common_prefix-append q x affix,
            split.same,
            tail_from-append {E = E} q split.shared,
            split.y_is,
            tail_from-behind {E = E} split.shared split.right split.right_rest,
            ← append_assoc q split.shared (split.right ∷ split.right_rest),
            byte_at-append {E = E} (q ++ split.shared) split.right split.right_rest,
          )
          (Runs->>= (child_extension types store split.right_rest p) _ _ _
            (child_extension-Runs split.right_rest p)
            (λ more is.
              Runs->>=
                (add_extension types store (first_or 0 split.shared) split.shared
                  (node_of split.right (child_pointer p more)) parents)
                _ _ _
                (add_extension-Runs types store (first_or 0 split.shared) split.shared
                  (node_of split.right (child_pointer p more)) parents)
                (λ r made. (refl, is, made))))
