-- ===== src/Trie/Lift.antt =====
-- What `rehash` of execution-engine/engine-storage/src/trie_store/operations/mod.rs makes of a change at
-- the tip: the same change at the root.
use casper_labs.Base.{
  ℕ, ◌≡◌, refl, sym, ap, ◌∙◌, Bool-cases, Option, some, [], ◌∷◌, ◌++◌, append_assoc, inl, inr, ◌==◌,
  ==_iff, arith,
}
use mathlib.Core.Path.{subst}
use mathlib.Core.Option.{some-injective}
use casper_labs.Bytes.{Bytes}
use casper_labs.Trie.{
  Pointer, pointer_hash, pointer_update, slot, set_slot, PointerBlock, Trie, leaf, node, extension,
}
use casper_labs.Trie.Operations.{Elements, pointer_to}
use casper_labs.Trie.Operations.Paths.{Parents, get_parents_path}
use casper_labs.Trie.Reading.{Reads, at_key, at_other, no_child, child, off_affix, past_affix}
use casper_labs.Trie.Spine.{Spine}
use casper_labs.Trie.Blocks.{slot-set_slot, slot-set_slot_other, slot-lt}
use casper_labs.Trie.Rebuild.{Rebuilt, Extends}

abbrev pub hash-pointer_to :
    {K V : Type 0} (t : Trie K V) (h : ℕ) → pointer_hash (pointer_to t h) ≡ h
hash-pointer_to (leaf _ _) h = refl
hash-pointer_to (node _) h = refl
hash-pointer_to (extension _ _) h = refl

abbrev pub hash-pointer_update : (h : ℕ) (p : Pointer) → pointer_hash (pointer_update h p) ≡ h
hash-pointer_update h (casper_labs.Trie.leaf_pointer _) = refl
hash-pointer_update h (casper_labs.Trie.node_pointer _) = refl

module _ {K V : Type 0} (types : Elements K V) (look look' : ℕ → Option (Trie K V))
    (ext : Extends look look') where
  -- What is read is read with more elements, too.
  pub Reads-mono :
      {key : K} {t : Trie K V} {path : Bytes} {r : Option V}
      → Reads types look key t path r
      → Reads types look' key t path r
  Reads-mono (at_key k v path e) = at_key k v path e
  Reads-mono (at_other k v path e) = at_other k v path e
  Reads-mono (no_child block i path e) = no_child block i path e
  Reads-mono (child block i path p t r e l d) =
      child block i path p t r e (ext (pointer_hash p) t l) (Reads-mono d)
  Reads-mono (off_affix affix p path le e) = off_affix affix p path le e
  Reads-mono (past_affix a affix p path rest t r e l d) =
      past_affix a affix p path rest t r e (ext (pointer_hash p) t l) (Reads-mono d)

  -- What is read at the new tip is read at the new root.
  pub Rebuilt-Reads :
      (parents : Parents K V) (key : K) (root tip c root' : Trie K V) (path rest : Bytes)
      (r : Option V)
      → Spine look parents root path tip rest
      → Rebuilt look' parents c root'
      → Reads types look' key c rest r
      → Reads types look' key root' path r
  Rebuilt-Reads [] key root tip c root' path rest r (e, e') b d = rw (b, e') d
  Rebuilt-Reads ((i, leaf _ _) ∷ parents) key root tip c root' path rest r s b d = elim s [ ]
  Rebuilt-Reads ((i, node block) ∷ parents) key root tip c root' path rest r
        (e, (path', p, t, e', o, l, s)) (h, c', l', b, e'') d =
      rw (e'', e')
        (child _ i path' (pointer_to c' h) c' r
          (slot-set_slot block i (pointer_to c' h) (slot-lt block i o))
          (ap look' (hash-pointer_to c' h) ∙ l')
          (Rebuilt-Reads parents key t tip c c' path' rest r s b d))
  Rebuilt-Reads ((i, extension [] p) ∷ parents) key root tip c root' path rest r s b d = elim s [ ]
  Rebuilt-Reads ((i, extension (a ∷ affix) p) ∷ parents) key root tip c root' path rest r
        (e, (path', t, e', l, s)) (h, c', l', b, e'') d =
      rw e'' (
        past_affix a affix (pointer_update h p) path path' c' r e'
          (ap look' (hash-pointer_update h p) ∙ l')
          (Rebuilt-Reads parents key t tip c c' path' rest r s b d))

  pub same_element : (h : ℕ) {t u : Trie K V} → look h ≡ some t → look h ≡ some u → t ≡ u
  same_element h {t} {u} a b = some-injective t u (sym a ∙ b)

  same_child :
      (block : PointerBlock) (i j : ℕ) (p q : Pointer) (t u : Trie K V)
      → j ≡ i
      → slot block i ≡ some p
      → slot block j ≡ some q
      → look (pointer_hash p) ≡ some t
      → look (pointer_hash q) ≡ some u
      → u ≡ t
  same_child block i j p q t u here o e l f =
      let same : q ≡ p = some-injective q p (sym e ∙ ap (slot block) here ∙ o) in
      same_element (pointer_hash q) f (ap (λ x. look (pointer_hash x)) same ∙ l)

  node_keeps :
      (key : K) (block : PointerBlock) (i : ℕ) (p q : Pointer) (t c : Trie K V) (path2 : Bytes)
      (r : Option V)
      → slot block i ≡ some p
      → look (pointer_hash p) ≡ some t
      → look' (pointer_hash q) ≡ some c
      → ((path' : Bytes)
          → path2 ≡ i ∷ path'
          → Reads types look key t path' r
          → Reads types look' key c path' r)
      → Reads types look key (node block) path2 r
      → Reads types look' key (node (set_slot block i q)) path2 r
  node_keeps key _ i p q t c _ _ o l l' keep (no_child block j path e) =
      elim (Bool-cases (j == i)) [
        | inl here ↦ absurd (ground (arith, o, e, (==_iff j i).0 here))
        | inr there ↦ no_child _ j path (slot-set_slot_other block i j q there ∙ e)
      ]
  node_keeps key _ i p q t c _ r o l l' keep (child block j path p2 t2 _ e f d) =
      elim (Bool-cases (j == i)) [
        | inl here ↦
            let at : j ≡ i = (==_iff j i).0 here in
            child _ j path q c r
              (ap (slot (set_slot block i q)) at ∙ slot-set_slot block i q (slot-lt block i o)) l'
              (keep path (ap (λ x. x ∷ path) at) (
                subst (λ x. Reads types look key x path r)
                  (same_child block i j p p2 t t2 at o e l f) d))
        | inr there ↦
            child _ j path p2 t2 r (slot-set_slot_other block i j q there ∙ e)
              (ext (pointer_hash p2) t2 f) (Reads-mono d)
      ]

  extension_keeps :
      (key : K) (a : ℕ) (affix : Bytes) (p q : Pointer) (t c : Trie K V) (path2 : Bytes)
      (r : Option V)
      → look (pointer_hash p) ≡ some t
      → look' (pointer_hash q) ≡ some c
      → ((path' : Bytes)
          → path2 ≡ (a ∷ affix) ++ path'
          → Reads types look key t path' r
          → Reads types look' key c path' r)
      → Reads types look key (extension (a ∷ affix) p) path2 r
      → Reads types look' key (extension (a ∷ affix) q) path2 r
  extension_keeps key a affix p q t c _ _ l l' keep (off_affix _ _ path le e) =
      off_affix (a ∷ affix) q path le e
  extension_keeps key _ _ p q t c _ _ l l' keep (past_affix a affix _ path rest t2 r e f d) =
      past_affix a affix q path rest c r e l' (
        keep rest e
          (subst (λ x. Reads types look key x rest r) (same_element (pointer_hash p) f l) d))

  -- A key that reads the same at the old and the new tip, if it leads there, reads the same at the root.
  pub Rebuilt-keeps :
      (parents : Parents K V) (key : K) (root tip c root' : Trie K V) (path rest path2 : Bytes)
      (r : Option V)
      → Spine look parents root path tip rest
      → Rebuilt look' parents c root'
      → ((rest2 : Bytes)
          → path2 ≡ get_parents_path parents ++ rest2
          → Reads types look key tip rest2 r
          → Reads types look' key c rest2 r)
      → Reads types look key root path2 r
      → Reads types look' key root' path2 r
  unfolding get_parents_path
  Rebuilt-keeps [] key root tip c root' path rest path2 r (e, e') b keep d =
      rw b (keep path2 refl (rw (← e) d))
  Rebuilt-keeps ((i, leaf _ _) ∷ parents) key root tip c root' path rest path2 r s b keep d =
      elim s [ ]
  Rebuilt-keeps ((i, node block) ∷ parents) key root tip c root' path rest path2 r
        (e, (path', p, t, e', o, l, s)) (h, c', l', b, e'') keep d =
      rw e'' (
        node_keeps key block i p (pointer_to c' h) t c' path2 r o l
          (ap look' (hash-pointer_to c' h) ∙ l')
          (λ x at d'.
            Rebuilt-keeps parents key t tip c c' path' rest x r s b
              (λ rest2 at2 d''. keep rest2 (at ∙ ap (λ y. i ∷ y) at2) d'') d')
          (subst (λ x. Reads types look key x path2 r) e d))
  Rebuilt-keeps ((i, extension [] p) ∷ parents) key root tip c root' path rest path2 r s b keep d =
      elim s [ ]
  Rebuilt-keeps ((i, extension (a ∷ affix) p) ∷ parents) key root tip c root' path rest path2 r
        (e, (path', t, e', l, s)) (h, c', l', b, e'') keep d =
      rw e'' (
        extension_keeps key a affix p (pointer_update h p) t c' path2 r l
          (ap look' (hash-pointer_update h p) ∙ l')
          (λ x at d'.
            Rebuilt-keeps parents key t tip c c' path' rest x r s b
              (λ rest2 at2 d''.
                keep rest2
                  (at
                    ∙ ap (λ y. (a ∷ affix) ++ y) at2
                    ∙ sym (append_assoc (a ∷ affix) (get_parents_path parents) rest2))
                  d'')
              d')
          (subst (λ x. Reads types look key x path2 r) e d))
