-- ===== src/Trie/Written.antt =====
-- Reading after `write` of execution-engine/engine-storage/src/trie_store/operations/mod.rs.
use casper_labs.Base.{
  ℕ, suc, ◌≤◌, ◌<◌, ◌≡◌, refl, sym, ap, ◌∙◌, false, Option, some, List, [], ◌∷◌, ◌++◌, ◌⊎◌, inl,
  inr, length, length-append, ok, ◌==◌, arith,
}
use mathlib.Core.Path.{subst}
use casper_labs.Bytes.{Bytes}
use casper_labs.Trie.{PointerBlock, Trie, node}
use casper_labs.Trie.Operations.{
  Elements, TrieStore, WriteResult, written, already_exists, found, first_or, read, write,
  scan_loop, new_elements, finish_write,
}
use casper_labs.Trie.Operations.Paths.{Parents, get_parents_path}
use casper_labs.Trie.Reading.{IsTrieStore, Reads, read_result, read_loop-Reads}
use casper_labs.Trie.Rebuild.{
  Runs, Runs->>=, Runs_mono, Runs_with, Extends, Uncollided, Present, last_element, put_all_lem,
}
use casper_labs.Trie.Lift.{Rebuilt-Reads, Rebuilt-keeps, Reads-mono}
use casper_labs.Trie.Spine.{Spine, Spine-path, scan_loop-Scanned}
use casper_labs.Trie.Shape.{IsElements, Shaped, IsNode, Spine-Shaped}
use casper_labs.Trie.Tips.Shapes.{Rebuilt-Shaped}
use casper_labs.Trie.Tips.{Grown}
use casper_labs.Trie.Writing.{new_elements-Made, Made}

-- Paths that start with the same byte do not differ in length by more than one.
abbrev pub Comparable : Bytes → Bytes → Type 0
Comparable path path' =
    ((first_or 256 path == first_or 257 path') ≡ false) ⊎ (length path ≤ suc (length path'))

Comparable-append :
    (q x y : Bytes) → Comparable (q ++ x) (q ++ y) → 0 < length q → length x ≤ suc (length y)
Comparable-append [] x y c lt = absurd (omega arith)
Comparable-append (a ∷ q) x y (inl c) lt = absurd (ground (arith, c))
Comparable-append (a ∷ q) x y (inr c) lt = omega (arith, c, length-append q x, length-append q y)

-- The root that a write leaves
abbrev pub root_after : ℕ → WriteResult → ℕ
root_after root (written root') = root'
root_after root already_exists = root
root_after root WriteResult.root_not_found = root

module _ {K V S E : Type 0} (types : Elements K V) (store : TrieStore K V S E) (Valid : K → Type 0)
    (law : IsElements types Valid) (look : S → ℕ → Option (Trie K V))
    (store_law : IsTrieStore store look) where
  -- Reading a key with an encoding, at a root in the store, returns what the trie holds for it: no panic,
  -- and no more rounds than the encoding has bytes, and one.
  pub read-Reads :
      (root : ℕ) (key : K) (s : S) (t : Trie K V) (path : Bytes) (r : Option V)
      → types.key.to_bytes key ≡ ok path
      → look s root ≡ some t
      → Reads types (look s) key t path r
      → read types store root key s ≡ ok (read_result r)
  unfolding read
  read-Reads root key s t path r e l d =
      rw (e, store_law.gets root s, l)
        (read_loop-Reads types store look store_law (suc (length path)) t path key s r d
          (omega arith))

  -- What a write does to the store
  abbrev pub WritesTo : ℕ → K → V → S → PointerBlock → Bytes → Option V → WriteResult × S → Type 0
  WritesTo root key value s block path r (w, s') =
      ((w ≡ already_exists) × (s' ≡ s) × (r ≡ some value))
      ⊎ ((root' : ℕ) × (t' : Trie K V) × (w ≡ written root')
          × (look s' root' ≡ some t')
          × Extends (look s) (look s')
          × Reads types (look s') key t' path (some value)
          × Shaped types Valid (look s') [] t'
          × IsNode t'
          × ((other : K) (path' : Bytes) (r' : Option V)
              → (other ≡ key → ⊥)
              → Valid other
              → types.key.to_bytes other ≡ ok path'
              → Comparable path path'
              → Reads types (look s) other (node block) path' r'
              → Reads types (look s') other t' path' r'))

  -- No element that the write makes has the hash of another one.
  abbrev pub NoCollision : K → V → S → PointerBlock → Bytes → Type 0
  NoCollision key value s block path =
      (tip : Trie K V) (parents : Parents K V) (es : List (ℕ × Trie K V))
      → scan_loop types store (suc (length path)) (node block) path [] s ≡ ok (tip, parents)
      → new_elements types store path key value tip parents ≡ ok es
      → Uncollided (look s) es

  module _ (root : ℕ) (key : K) (value : V) (s : S) (block : PointerBlock) (path : Bytes)
      (r : Option V) (valid : Valid key) (encodes : types.key.to_bytes key ≡ ok path)
      (at_root : look s root ≡ some (node block))
      (shaped : Shaped types Valid (look s) [] (node block))
      (reads : Reads types (look s) key (node block) path r)
      (distinct : NoCollision key value s block path) where
    finish_Grown :
        (tip : Trie K V) (parents : Parents K V) (rest : Bytes) (es : List (ℕ × Trie K V))
        → path ≡ get_parents_path parents ++ rest
        → Spine (look s) parents (node block) path tip rest
        → Uncollided (look s) es
        → Grown types Valid (look s) parents tip rest key value es
        → Runs (finish_write types store root es s) (WritesTo root key value s block path r)
    finish_Grown tip parents rest es at spine apart (first, others, e, grows) =
        let (s', done, ext, present) =
          put_all_lem store look store_law types root first others s
            (subst (Uncollided (look s)) e apart) in
        let (c, t', rebuilt, l, better) =
          grows (look s') ext (subst (Present (look s')) (sym e) present) in
        let (shape, is_node) =
          Rebuilt-Shaped types Valid (look s) (look s') ext parents [] path rest (node block) tip c
            t' spine rebuilt shaped better.2 better.3 in
        rw (e, done)
          (inr (
            (last_element first others).0,
            t',
            refl,
            l,
            ext,
            Rebuilt-Reads types (look s) (look s') ext parents key (node block) tip c t' path rest
                (some value) spine rebuilt better.0,
            shape,
            is_node (block, refl),
            (λ other path' r' n v e' near d.
                Rebuilt-keeps types (look s) (look s') ext parents other (node block) tip c t' path
                  rest path' r' spine rebuilt
                  (λ rest' at' d'.
                    better.1 other rest' r'
                      (
                        n,
                        v,
                        e' ∙ ap ok at',
                        Comparable-append (get_parents_path parents) rest rest' (
                            subst (λ w. Comparable w (get_parents_path parents ++ rest')) at
                              (subst (Comparable path) at' near)),
                      )
                      d')
                  d),
          ))

    pub write-WritesTo :
        Runs (write types store root key value s) (WritesTo root key value s block path r)
    unfolding write
    write-WritesTo =
        let sc =
          scan_loop-Scanned types store look store_law (suc (length path)) (node block) path [] key
            s r reads (omega arith) in
        let at = Spine-path (look s) sc.parents (node block) path sc.tip sc.rest sc.leads in
        rw (store_law.gets root s, at_root, encodes, sc.returns)
          (Runs->>= (new_elements types store path key value sc.tip sc.parents) _ _ _
            (Runs_with (new_elements types store path key value sc.tip sc.parents) _ (
              subst
                (λ w.
                  Runs (new_elements types store w key value sc.tip sc.parents) (
                    Made types store Valid law (look s) sc.parents key value sc.rest block r
                      sc.tip))
                (sym at)
                (new_elements-Made types store Valid law (look s) sc.parents key value sc.rest block
                  r shaped valid (encodes ∙ ap ok at) sc.tip
                  (subst (λ w. Spine (look s) sc.parents (node block) w sc.tip sc.rest) at sc.leads)
                  (Spine-Shaped types Valid (look s) sc.parents [] path sc.rest (node block) sc.tip
                    sc.leads shaped)
                  sc.stops sc.reads)))
            (λ es made. elim made.0 [
              | inl (e, there) ↦ rw e (inl (refl, refl, there))
              | inr grown ↦
                  finish_Grown sc.tip sc.parents sc.rest es at sc.leads
                    (distinct sc.tip sc.parents es sc.returns made.1) grown
            ]))

    -- A write to a node in the store as the root of a trie in shape, which holds what it does for a valid
    -- key, does not panic or run out of fuel, if the elements that it makes do not collide. Unless an
    -- encoding fails, the value is then read for the key at the root that the write leaves.
    pub write-read :
        Runs
          (write types store root key value s)
          (λ (w, s'). read types store (root_after root w) key s' ≡ ok (found value))
    write-read = Runs_mono (write types store root key value s) _ _ write-WritesTo (λ (w, s') done.
        elim done [
          | inl (e, e', there) ↦
              rw (e, e')
                (read-Reads root key s (node block) path r encodes at_root reads
                  ∙ ap (λ x. ok (read_result x)) there)
          | inr (root', t', e, l, ext, d, _, _, _) ↦
              rw e (read-Reads root' key s' t' path (some value) encodes l d)
        ])

    -- Under the same conditions the write leaves, unless an encoding fails, a node in the store as the
    -- root of a trie in shape.
    pub write-Shaped : Runs (write types store root key value s) (λ (w, s').
        (block' : PointerBlock) × (look s' (root_after root w) ≡ some (node block'))
        × Shaped types Valid (look s') [] (node block'))
    write-Shaped =
        Runs_mono (write types store root key value s) _ _ write-WritesTo (λ (w, s') done.
          elim done [
            | inl (e, e', there) ↦ rw (e, e') (block, at_root, shaped)
            | inr (root', t', e, l, ext, d, shape, is_node, _) ↦ rw e (
              is_node.0,
              l ∙ ap some is_node.1,
              subst (Shaped types Valid (look s') []) is_node.1 shape,
            )
          ])

    module _ (other : K) (path' : Bytes) (r' : Option V) (valid' : Valid other)
        (encodes' : types.key.to_bytes other ≡ ok path') (apart : other ≡ key → ⊥)
        (near : Comparable path path')
        (reads' : Reads types (look s) other (node block) path' r') where
      -- Under the same conditions, and unless an encoding fails, another valid key with a comparable
      -- path, for which the trie holds a value or none, is read at the root that the write leaves as it
      -- was at the root before.
      pub write-read_other :
          Runs (write types store root key value s) (λ (w, s').
            read types store (root_after root w) other s' ≡ read types store root other s)
      write-read_other =
          Runs_mono (write types store root key value s) _ _ write-WritesTo (λ (w, s') done.
            elim done [
              | inl (e, e', there) ↦ rw (e, e') refl
              | inr (root', t', e, l, ext, _, _, _, keep) ↦ rw e (
                  read-Reads root' other s' t' path' r' encodes' l
                    (keep other path' r' apart valid' encodes' near reads')
                  ∙ sym (read-Reads root other s (node block) path' r' encodes' at_root reads'))
            ])

    -- Under the same conditions, and unless an encoding fails, what is read of any key at the root before
    -- the write is read there afterwards, too.
    pub write-read_before :
        (other : K) (path' : Bytes) (r' : Option V)
        → types.key.to_bytes other ≡ ok path'
        → Reads types (look s) other (node block) path' r'
        → Runs
            (write types store root key value s)
            (λ (w, s'). read types store root other s' ≡ read types store root other s)
    write-read_before other path' r' encodes' reads' =
        Runs_mono (write types store root key value s) _ _ write-WritesTo (λ (w, s') done.
          elim done [
            | inl (e, e', there) ↦ rw e' refl
            | inr (root', t', e, l, ext, _, _, _, keep) ↦
                read-Reads root other s' (node block) path' r' encodes'
                  (ext root (node block) at_root) (Reads-mono types (look s) (look s') ext reads')
                ∙ sym (read-Reads root other s (node block) path' r' encodes' at_root reads')
          ])
