-- ===== src/Trie/Spine.antt =====
-- `scan` of execution-engine/engine-storage/src/trie_store/operations/mod.rs: the parents that it
-- collects lead from the root to the tip.
use casper_labs.Base.{
  ℕ, zero, suc, ◌≤◌, ◌<◌, ◌≡◌, refl, sym, ap, ◌∙◌, false, Option, none, some, [], ◌∷◌, ◌++◌,
  append_assoc, append-nil, length, ok, ⊤, arith,
}
use casper_labs.Bytes.{Bytes, take}
use casper_labs.Trie.{Pointer, pointer_hash, slot, Trie, leaf, node, extension}
use casper_labs.Trie.Operations.{Elements, TrieStore, Run, slice, byte_at, scan_loop}
use casper_labs.Trie.Operations.Paths.{Parents, bytes_eq, get_parents_path}
use casper_labs.Trie.Reading.{
  IsTrieStore, Reads, at_key, at_other, no_child, child, off_affix, past_affix, follow_lem,
  bytes_eq_refl, slice-append, slice-le, shorter,
}

module _ {K V : Type 0} (look : ℕ → Option (Trie K V)) where
  -- The parents lead from the root along the path to the tip, with the rest of the path left.
  abbrev pub Spine : Parents K V → Trie K V → Bytes → Trie K V → Bytes → Type 0
  Spine [] root path tip rest = (root ≡ tip) × (path ≡ rest)
  Spine ((i, leaf _ _) ∷ parents) root path tip rest = ⊥
  Spine ((i, node block) ∷ parents) root path tip rest =
      (root ≡ node block)
      × ((path' : Bytes) × (p : Pointer) × (t : Trie K V) × (path ≡ i ∷ path')
          × (slot block i ≡ some p)
          × (look (pointer_hash p) ≡ some t)
          × Spine parents t path' tip rest)
  Spine ((i, extension [] p) ∷ parents) root path tip rest = ⊥
  Spine ((i, extension (a ∷ affix) p) ∷ parents) root path tip rest =
      (root ≡ extension (a ∷ affix) p)
      × ((path' : Bytes) × (t : Trie K V) × (path ≡ (a ∷ affix) ++ path')
          × (look (pointer_hash p) ≡ some t)
          × Spine parents t path' tip rest)

  -- Why a scan ends at the tip.
  abbrev pub IsTip : Trie K V → Bytes → Type 0
  IsTip (leaf k v) rest = ⊤
  IsTip (node block) rest = (i : ℕ) × (rest' : Bytes) × (rest ≡ i ∷ rest') × (slot block i ≡ none)
  IsTip (extension affix p) rest =
      (length affix ≤ length rest) × (bytes_eq (take (length affix) rest) affix ≡ false)

  pub Spine-path :
      (parents : Parents K V) (root : Trie K V) (path : Bytes) (tip : Trie K V) (rest : Bytes)
      → Spine parents root path tip rest
      → path ≡ get_parents_path parents ++ rest
  unfolding get_parents_path
  Spine-path [] root path tip rest (e, e') = e'
  Spine-path ((i, leaf k v) ∷ parents) root path tip rest h = elim h [ ]
  Spine-path ((i, node block) ∷ parents) root path tip rest (e, (path', p, t, e', s, l, h)) =
      e' ∙ ap (λ x. i ∷ x) (Spine-path parents t path' tip rest h)
  Spine-path ((i, extension [] p) ∷ parents) root path tip rest h = elim h [ ]
  Spine-path ((i, extension (a ∷ affix) p) ∷ parents) root path tip rest (e, (path', t, e', l, h)) =
      e'
      ∙ ap (λ x. (a ∷ affix) ++ x) (Spine-path parents t path' tip rest h)
      ∙ sym (append_assoc (a ∷ affix) (get_parents_path parents) rest)

module _ {K V S E : Type 0} (types : Elements K V) (store : TrieStore K V S E)
    (look : S → ℕ → Option (Trie K V)) (law : IsTrieStore store look) where
  -- What a scan returns, from parents collected before on.
  pub record Scanned (t : Trie K V) (path : Bytes) (acc : Parents K V) (key : K) (s : S)
      (r : Option V) (m : Run E (Trie K V × Parents K V)) : Type 0 where
    pub tip : Trie K V
    pub parents : Parents K V
    pub rest : Bytes
    pub returns : m ≡ ok (tip, acc ++ parents)
    pub leads : Spine (look s) parents t path tip rest
    pub reads : Reads types (look s) key tip rest r
    pub stops : IsTip (look s) tip rest

  pub scan_loop-Scanned :
      (fuel : ℕ) (t : Trie K V) (path : Bytes) (acc : Parents K V) (key : K) (s : S) (r : Option V)
      → Reads types (look s) key t path r
      → length path < fuel
      → Scanned t path acc key s r (scan_loop types store fuel t path acc s)
  unfolding scan_loop
  scan_loop-Scanned zero t path acc key s r d lt = absurd (omega arith)
  scan_loop-Scanned (suc fuel) _ _ acc key s _ (at_key k v path e) lt = record {
    tip = leaf k v;
    parents = [];
    rest = path;
    returns = ground (arith, append-nil acc);
    leads = (refl, refl);
    reads = at_key k v path e;
    stops = tt;
  }
  scan_loop-Scanned (suc fuel) _ _ acc key s _ (at_other k v path e) lt = record {
    tip = leaf k v;
    parents = [];
    rest = path;
    returns = ground (arith, append-nil acc);
    leads = (refl, refl);
    reads = at_other k v path e;
    stops = tt;
  }
  scan_loop-Scanned (suc fuel) _ _ acc key s _ (no_child block i path e) lt = record {
    tip = node block;
    parents = [];
    rest = i ∷ path;
    returns = ground (arith, append-nil acc);
    leads = (refl, refl);
    reads = no_child block i path e;
    stops = (i, path, refl, e);
  }
  scan_loop-Scanned (suc fuel) _ _ acc key s r (child block i path p t' _ e l d) lt =
      let ih =
        scan_loop-Scanned fuel t' path (acc ++ (i, node block) ∷ []) key s r d (omega arith) in
      record {
        tip = ih.tip;
        parents = (i, node block) ∷ ih.parents;
        rest = ih.rest;
        returns = ground (
          arith,
          follow_lem types store look law p s t' l,
          ih.returns,
          append_assoc acc ((i, node block) ∷ []) ih.parents,
        );
        leads = (refl, (path, p, t', refl, e, l, ih.leads));
        reads = ih.reads;
        stops = ih.stops;
      }
  scan_loop-Scanned (suc fuel) _ _ acc key s _ (off_affix affix p path le e) lt = record {
    tip = extension affix p;
    parents = [];
    rest = path;
    returns = ground (arith, slice-le {E = E} (length affix) path le, append-nil acc);
    leads = (refl, refl);
    reads = off_affix affix p path le e;
    stops = (le, e);
  }
  scan_loop-Scanned (suc fuel) _ _ acc key s r (past_affix a affix p path rest t' _ e l d) lt =
      let ih =
        scan_loop-Scanned fuel t' rest (acc ++ (a, extension (a ∷ affix) p) ∷ []) key s r d
          (shorter fuel path a affix rest e lt) in
      record {
        tip = ih.tip;
        parents = (a, extension (a ∷ affix) p) ∷ ih.parents;
        rest = ih.rest;
        returns =
            (ground (
              arith,
              ap (slice {E = E} (length (a ∷ affix))) e ∙ slice-append {E = E} (a ∷ affix) rest,
              bytes_eq_refl (a ∷ affix),
              ap (λ x. byte_at {E = E} x 0) e,
              follow_lem types store look law p s t' l,
              ih.returns,
              append_assoc acc ((a, extension (a ∷ affix) p) ∷ []) ih.parents,
            ));
        leads = (refl, (rest, t', e, l, ih.leads));
        reads = ih.reads;
        stops = ih.stops;
      }
