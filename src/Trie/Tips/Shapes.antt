-- ===== src/Trie/Tips/Shapes.antt =====
-- The shape of the nodes and extensions that `write` of
-- execution-engine/engine-storage/src/trie_store/operations/mod.rs makes.
use casper_labs.Base.{
  ℕ, ◌<◌, ◌≡◌, refl, sym, ap, ◌∙◌, Bool-cases, Option, some, [], ◌∷◌, ◌++◌, append_assoc,
  append-nil, inl, inr, length, ok, ◌==◌, ==_iff, All, arith,
}
use mathlib.Core.Path.{subst}
use mathlib.Core.Option.{some-injective}
use casper_labs.Bytes.{Bytes}
use casper_labs.Trie.{
  Pointer, pointer_hash, pointer_update, slot, set_slot, empty_block, PointerBlock, Trie, leaf,
  node, extension,
}
use casper_labs.Trie.Operations.{Elements, pointer_to}
use casper_labs.Trie.Operations.Paths.{Parents, get_parents_path}
use casper_labs.Trie.Rebuild.{Rebuilt, Extends}
use casper_labs.Trie.Lift.{hash-pointer_update, hash-pointer_to}
use casper_labs.Trie.Blocks.{
  slot-set_slot, slot-set_slot_other, slot-lt, length-set_slot, slot-empty_block,
  length-empty_block, block_of, length-block_of,
}
use casper_labs.Trie.Spine.{Spine}
use casper_labs.Trie.Shape.{
  Shaped, shaped_leaf, shaped_node, shaped_extension, Shaped-child, Shaped-below, Shaped-affix,
  IsNode,
}

module _ {K V : Type 0} (types : Elements K V) (Valid : K → Type 0)
    (look look' : ℕ → Option (Trie K V)) (ext : Extends look look') where
  same_found : (h : ℕ) (t u : Trie K V) → look h ≡ some t → look' h ≡ some u → t ≡ u
  same_found h t u l l' = some-injective t u (sym (ext h t l) ∙ l')

  pub Shaped-mono :
      {q : Bytes} {t : Trie K V} → Shaped types Valid look q t → Shaped types Valid look' q t
  Shaped-mono (shaped_leaf q rest k v valid e) = shaped_leaf q rest k v valid e
  Shaped-mono (shaped_node q block n has below) =
      shaped_node q block n (λ i p o. let (t, l) = has i p o in (t, ext (pointer_hash p) t l))
        (λ i p t o l.
          let (u, l') = has i p o in
          subst (Shaped types Valid look' (q ++ i ∷ [])) (same_found (pointer_hash p) u t l' l)
            (Shaped-mono (below i p u o l')))
  Shaped-mono (shaped_extension q a affix p block bytes l below) =
      shaped_extension q a affix p block bytes (ext (pointer_hash p) (node block) l)
        (Shaped-mono below)

  slot_found :
      (block : PointerBlock) (i j : ℕ) (p p' : Pointer)
      → i < length block
      → j ≡ i
      → slot (set_slot block i p) j ≡ some p'
      → p' ≡ p
  slot_found block i j p p' lt at o =
      some-injective p' p (sym o ∙ ap (slot (set_slot block i p)) at ∙ slot-set_slot block i p lt)

  -- A node with another child in a slot
  pub set_slot-Shaped :
      (q : Bytes) (block : PointerBlock) (i : ℕ) (p : Pointer) (c : Trie K V)
      → Shaped types Valid look q (node block)
      → i < length block
      → look' (pointer_hash p) ≡ some c
      → Shaped types Valid look' (q ++ i ∷ []) c
      → Shaped types Valid look' q (node (set_slot block i p))
  set_slot-Shaped _ _ i p c (shaped_node q block n has below) lt l shaped =
      shaped_node q (set_slot block i p) (length-set_slot block i p ∙ n)
        (λ j p' o. elim (Bool-cases (j == i)) [
          | inl here ↦
              let same = slot_found block i j p p' lt ((==_iff j i).0 here) o in
              (c, ap (λ x. look' (pointer_hash x)) same ∙ l)
          | inr there ↦
              let (t, l') = has j p' (sym (slot-set_slot_other block i j p there) ∙ o) in
              (t, ext (pointer_hash p') t l')
        ])
        (λ j p' t o l'. elim (Bool-cases (j == i)) [
          | inl here ↦
              let at = (==_iff j i).0 here in
              let same = slot_found block i j p p' lt at o in
              let this : c ≡ t =
                some-injective c t (sym l ∙ ap (λ x. look' (pointer_hash x)) (sym same) ∙ l') in
              subst (λ k. Shaped types Valid look' (q ++ k ∷ []) t) (sym at)
                (subst (Shaped types Valid look' (q ++ i ∷ [])) this shaped)
          | inr there ↦
              let o' = sym (slot-set_slot_other block i j p there) ∙ o in
              let (u, l'') = has j p' o' in
              subst (Shaped types Valid look' (q ++ j ∷ []))
                (same_found (pointer_hash p') u t l'' l') (Shaped-mono (below j p' u o' l''))
        ])

module _ {K V : Type 0} (types : Elements K V) (Valid : K → Type 0)
    (look : ℕ → Option (Trie K V)) where
  pub leaf-Shaped :
      (q z x : Bytes) (key : K) (value : V)
      → Valid key
      → types.key.to_bytes key ≡ ok (q ++ (z ++ x))
      → Shaped types Valid look (q ++ z) (leaf key value)
  leaf-Shaped q z x key value valid e =
      shaped_leaf (q ++ z) x key value valid (e ∙ ap ok (sym (append_assoc q z x)))

  pub extension-Shaped :
      (q : Bytes) (a : ℕ) (affix : Bytes) (p : Pointer) (c : Trie K V)
      → All (λ b. b < 256) (a ∷ affix)
      → look (pointer_hash p) ≡ some c
      → IsNode c
      → Shaped types Valid look (q ++ a ∷ affix) c
      → Shaped types Valid look q (extension (a ∷ affix) p)
  extension-Shaped q a affix p c bytes l (block, e) shaped =
      shaped_extension q a affix p block bytes (l ∙ ap some e)
        (subst (Shaped types Valid look (q ++ a ∷ affix)) e shaped)

  empty-Shaped : (q : Bytes) → Shaped types Valid look q (node empty_block)
  empty-Shaped q =
      shaped_node q empty_block length-empty_block
        (λ i p e. absurd (ground (arith, e, slot-empty_block i)))
        (λ i p t e l. absurd (ground (arith, e, slot-empty_block i)))

  -- A node with a leaf and one more child
  pub two_children-Shaped :
      (q x : Bytes) (a b h : ℕ) (p : Pointer) (u : Trie K V) (key : K) (value : V)
      → a < 256
      → b < 256
      → look (pointer_hash p) ≡ some u
      → Shaped types Valid look (q ++ b ∷ []) u
      → look h ≡ some (leaf key value)
      → Valid key
      → types.key.to_bytes key ≡ ok (q ++ a ∷ x)
      → Shaped types Valid look q (node (set_slot (block_of b p) a (pointer_to (leaf key value) h)))
  two_children-Shaped q x a b h p u key value a_lt b_lt l shaped l' valid e =
      let same : Extends look look = λ j t f. f in
      set_slot-Shaped types Valid look look same q (block_of b p) a (pointer_to (leaf key value) h)
        (leaf key value)
        (set_slot-Shaped types Valid look look same q empty_block b p u (empty-Shaped q)
          (omega (arith, length-empty_block)) l shaped)
        (omega (arith, length-block_of b p)) l' (leaf-Shaped q (a ∷ []) x key value valid e)

module _ {K V : Type 0} (types : Elements K V) (Valid : K → Type 0)
    (look look' : ℕ → Option (Trie K V)) (ext : Extends look look') where
  -- The root has the shape, if the new tip has it, and is a node where the old tip was one.
  pub Rebuilt-Shaped :
      (parents : Parents K V) (q path rest : Bytes) (root tip c root' : Trie K V)
      → Spine look parents root path tip rest
      → Rebuilt look' parents c root'
      → Shaped types Valid look q root
      → Shaped types Valid look' (q ++ get_parents_path parents) c
      → (IsNode tip → IsNode c)
      → Shaped types Valid look' q root' × (IsNode root → IsNode root')
  unfolding get_parents_path
  Rebuilt-Shaped [] q path rest root tip c root' (e, _) b s s' n =
      rw (b, e) (rw (← append-nil q) s', n)
  Rebuilt-Shaped ((i, leaf _ _) ∷ parents) q path rest root tip c root' h b s s' n = elim h [ ]
  Rebuilt-Shaped ((i, node block) ∷ parents) q path rest root tip c root'
        (e, (path', p, t, _, o, l, h)) (h', c', l', b, e') s s' n =
      let old = subst (Shaped types Valid look q) e s in
      let (below, _) =
        Rebuilt-Shaped parents (q ++ i ∷ []) path' rest t tip c c' h b
          (Shaped-child types Valid look old i p t o l)
          (subst (λ x. Shaped types Valid look' x c)
            (sym (append_assoc q (i ∷ []) (get_parents_path parents))) s')
          n in
      rw e' (
        set_slot-Shaped types Valid look look' ext q block i (pointer_to c' h') c' old
            (slot-lt block i o) (ap look' (hash-pointer_to c' h') ∙ l') below,
        (λ _. (set_slot block i (pointer_to c' h'), refl)),
      )
  Rebuilt-Shaped ((i, extension [] p) ∷ parents) q path rest root tip c root' h b s s' n =
      elim h [ ]
  Rebuilt-Shaped ((i, extension (a ∷ affix) p) ∷ parents) q path rest root tip c root'
        (e, (path', t, _, l, h)) (h', c', l', b, e') s s' n =
      let old = subst (Shaped types Valid look q) e s in
      let (shaped, is_node) = Shaped-below types Valid look old t l in
      let (below, still) =
        Rebuilt-Shaped parents (q ++ a ∷ affix) path' rest t tip c c' h b shaped
          (subst (λ x. Shaped types Valid look' x c)
            (sym (append_assoc q (a ∷ affix) (get_parents_path parents))) s')
          n in
      rw e' (
        extension-Shaped types Valid look' q a affix (pointer_update h' p) c'
            (Shaped-affix types Valid look old).0 (ap look' (hash-pointer_update h' p) ∙ l')
            (still is_node) below,
        (λ (b', bad). absurd (ground (arith, e, bad))),
      )
