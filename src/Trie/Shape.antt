-- ===== src/Trie/Shape.antt =====
-- The shape of a trie that `write` of execution-engine/engine-storage/src/trie_store/operations/mod.rs
-- makes, and what it says of the tip of a scan.
use casper_labs.Base.{
  ℕ, ◌<◌, ◌≡◌, refl, sym, ap, ◌∙◌, true, Option, some, [], ◌∷◌, ◌++◌, append_assoc, append-nil,
  length, All, ok, arith,
}
use mathlib.Core.Path.{subst}
use mathlib.Core.Option.{some-injective}
use casper_labs.Bytes.{Bytes}
use casper_labs.Bytes.Laws.{RoundTrips}
use casper_labs.Trie.{Pointer, pointer_hash, slot, PointerBlock, Trie, leaf, node, extension}
use casper_labs.Trie.Operations.{Elements}
use casper_labs.Trie.Operations.Paths.{Parents, get_parents_path, last_of}
use casper_labs.Trie.Rebuild.{NoLeaves}
use casper_labs.Trie.Spine.{Spine}

-- What keys are to be: read back from their bytes, made of bytes, and compared by an equality.
pub record IsElements {K V : Type 0} (types : Elements K V) (Valid : K → Type 0) : Type 0 where
  pub keys_read : RoundTrips types.key Valid
  pub keys_bytes :
      (k : K) (path : Bytes) → Valid k → types.key.to_bytes k ≡ ok path → All (λ b. b < 256) path
  pub key_eq_sound : (a b : K) → types.key_eq a b ≡ true → a ≡ b
  pub key_eq_refl : (a : K) → types.key_eq a a ≡ true
  pub value_eq_sound : (a b : V) → types.value_eq a b ≡ true → a ≡ b

abbrev pub IsNode : {K V : Type 0} → Trie K V → Type 0
IsNode t = (block : PointerBlock) × (t ≡ node block)

module _ {K V : Type 0} (types : Elements K V) (Valid : K → Type 0)
    (look : ℕ → Option (Trie K V)) where
  -- A trie under the path, with all of its elements: leaves lie on the paths of their keys, nodes have a
  -- pointer for each byte, and extensions have an affix of bytes and lead to a node.
  pub data Shaped : Bytes → Trie K V → Type 0 where
    shaped_leaf :
        (q rest : Bytes) (k : K) (v : V)
        → Valid k
        → types.key.to_bytes k ≡ ok (q ++ rest)
        → Shaped q (leaf k v)
    shaped_node :
        (q : Bytes) (block : PointerBlock)
        → length block ≡ 256
        → ((i : ℕ) (p : Pointer)
            → slot block i ≡ some p
            → (t : Trie K V) × (look (pointer_hash p) ≡ some t))
        → ((i : ℕ) (p : Pointer) (t : Trie K V)
            → slot block i ≡ some p
            → look (pointer_hash p) ≡ some t
            → Shaped (q ++ i ∷ []) t)
        → Shaped q (node block)
    shaped_extension :
        (q : Bytes) (a : ℕ) (affix : Bytes) (p : Pointer) (block : PointerBlock)
        → All (λ b. b < 256) (a ∷ affix)
        → look (pointer_hash p) ≡ some (node block)
        → Shaped (q ++ a ∷ affix) (node block)
        → Shaped q (extension (a ∷ affix) p)

  pub Shaped-child :
      {q : Bytes} {block : PointerBlock}
      → Shaped q (node block)
      → (i : ℕ) (p : Pointer) (t : Trie K V) → slot block i ≡ some p
      → look (pointer_hash p) ≡ some t
      → Shaped (q ++ i ∷ []) t
  Shaped-child (shaped_node q block n has below) i p t o l = below i p t o l

  pub Shaped-below :
      {q : Bytes} {a : ℕ} {affix : Bytes} {p : Pointer}
      → Shaped q (extension (a ∷ affix) p)
      → (t : Trie K V) → look (pointer_hash p) ≡ some t
      → Shaped (q ++ a ∷ affix) t × IsNode t
  Shaped-below (shaped_extension q a affix p block bytes l' below) t l =
      let same : node block ≡ t = some-injective (node block) t (sym l' ∙ l) in
      (subst (Shaped (q ++ a ∷ affix)) same below, (block, sym same))

  pub Shaped-length :
      {q : Bytes} {block : PointerBlock} → Shaped q (node block) → length block ≡ 256
  Shaped-length (shaped_node q block n has below) = n

  pub Shaped-key :
      {q : Bytes} {k : K} {v : V}
      → Shaped q (leaf k v)
      → (rest : Bytes) × Valid k × (types.key.to_bytes k ≡ ok (q ++ rest))
  Shaped-key (shaped_leaf q rest k v valid e) = (rest, valid, e)

  pub Shaped-affix :
      {q affix : Bytes} {p : Pointer}
      → Shaped q (extension affix p)
      → All (λ b. b < 256) affix × ((t : Trie K V) × (look (pointer_hash p) ≡ some t))
  Shaped-affix (shaped_extension q a affix p block bytes l below) = (bytes, (node block, l))

  pub Shaped-extension_below :
      {q affix : Bytes} {p : Pointer}
      → Shaped q (extension affix p)
      → (t : Trie K V) → look (pointer_hash p) ≡ some t
      → Shaped (q ++ affix) t × IsNode t
  Shaped-extension_below (shaped_extension q a affix p block bytes l' below) t l =
      let same : node block ≡ t = some-injective (node block) t (sym l' ∙ l) in
      (subst (Shaped (q ++ a ∷ affix)) same below, (block, sym same))

  -- The tip of a scan has the shape, too, and there are no leaves above it.
  pub Spine-Shaped :
      (parents : Parents K V) (q path rest : Bytes) (root tip : Trie K V)
      → Spine look parents root path tip rest
      → Shaped q root
      → Shaped (q ++ get_parents_path parents) tip
  unfolding get_parents_path
  Spine-Shaped [] q path rest root tip (e, _) s = rw (append-nil q, ← e) s
  Spine-Shaped ((i, leaf _ _) ∷ parents) q path rest root tip h s = elim h [ ]
  Spine-Shaped ((i, node block) ∷ parents) q path rest root tip (e, (path', p, t, _, o, l, h)) s =
      subst (λ x. Shaped x tip) (append_assoc q (i ∷ []) (get_parents_path parents))
        (Spine-Shaped parents (q ++ i ∷ []) path' rest t tip h
          (Shaped-child (subst (Shaped q) e s) i p t o l))
  Spine-Shaped ((i, extension [] p) ∷ parents) q path rest root tip h s = elim h [ ]
  Spine-Shaped ((i, extension (a ∷ affix) p) ∷ parents) q path rest root tip
        (e, (path', t, _, l, h)) s =
      subst (λ x. Shaped x tip) (append_assoc q (a ∷ affix) (get_parents_path parents))
        (Spine-Shaped parents (q ++ a ∷ affix) path' rest t tip h
          (Shaped-below (subst (Shaped q) e s) t l).0)

  -- The last of the parents is a node with a pointer to the tip.
  abbrev pub Hangs : Parents K V → Trie K V → Type 0
  Hangs parents tip =
      (i : ℕ) × (block : PointerBlock) × (p : Pointer) × (last_of parents ≡ some (i, node block))
      × (slot block i ≡ some p)
      × (look (pointer_hash p) ≡ some tip)

  Spine-Hangs_below :
      (parent : ℕ × Trie K V) (parents : Parents K V) (q path rest : Bytes) (root : Trie K V)
      (k : K) (v : V)
      → Spine look (parent ∷ parents) root path (leaf k v) rest
      → Shaped q root
      → Hangs (parent ∷ parents) (leaf k v)
  unfolding last_of
  Spine-Hangs_below (i, leaf _ _) parents q path rest root k v h s = elim h [ ]
  Spine-Hangs_below (i, node block) [] q path rest root k v (e, (path', p, t, _, o, l, (e', _))) s =
      (i, block, p, refl, o, l ∙ ap some e')
  Spine-Hangs_below (i, node block) (next ∷ parents) q path rest root k v
        (e, (path', p, t, _, o, l, h)) s =
      Spine-Hangs_below next parents (q ++ i ∷ []) path' rest t k v h
        (Shaped-child (subst (Shaped q) e s) i p t o l)
  Spine-Hangs_below (i, extension [] p) parents q path rest root k v h s = elim h [ ]
  Spine-Hangs_below (i, extension (a ∷ affix) p) [] q path rest root k v
        (e, (path', t, _, l, (e', _))) s =
      let (_, other) = Shaped-below (subst (Shaped q) e s) t l in
      absurd (ground (arith, e', other.1))
  Spine-Hangs_below (i, extension (a ∷ affix) p) (next ∷ parents) q path rest root k v
        (e, (path', t, _, l, h)) s =
      Spine-Hangs_below next parents (q ++ a ∷ affix) path' rest t k v h
        (Shaped-below (subst (Shaped q) e s) t l).0

  pub Spine-Hangs :
      (parents : Parents K V) (path rest : Bytes) (block : PointerBlock) (k : K) (v : V)
      → Spine look parents (node block) path (leaf k v) rest
      → Shaped [] (node block)
      → Hangs parents (leaf k v)
  Spine-Hangs [] path rest block k v (e, _) s = absurd (ground (arith, e))
  Spine-Hangs (parent ∷ parents) path rest block k v h s =
      Spine-Hangs_below parent parents [] path rest (node block) k v h s

  pub Spine-NoLeaves :
      (parents : Parents K V) (path rest : Bytes) (root tip : Trie K V)
      → Spine look parents root path tip rest
      → NoLeaves parents
  Spine-NoLeaves [] path rest root tip h = tt
  Spine-NoLeaves ((i, leaf _ _) ∷ parents) path rest root tip h = h
  Spine-NoLeaves ((i, node block) ∷ parents) path rest root tip (e, (path', p, t, _, o, l, h)) =
      Spine-NoLeaves parents path' rest t tip h
  Spine-NoLeaves ((i, extension [] p) ∷ parents) path rest root tip h = elim h [ ]
  Spine-NoLeaves ((i, extension (a ∷ affix) p) ∷ parents) path rest root tip
        (e, (path', t, _, l, h)) =
      Spine-NoLeaves parents path' rest t tip h
