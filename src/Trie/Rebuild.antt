-- ===== src/Trie/Rebuild.antt =====
-- `rehash` of execution-engine/engine-storage/src/trie_store/operations/mod.rs, and the writes of the
-- elements that it makes.
use casper_labs.Base.{
  ℕ, ◌≡◌, refl, sym, ap, ◌∙◌, Bool-cases, Option, none, some, List, [], ◌∷◌, ◌++◌, append_assoc,
  append-nil, ◌⊎◌, inl, inr, Result, ok, err, map_err, ◌>>=◌, ◌==◌, ==_iff, ⊤, if◌then◌else◌, arith,
}
use mathlib.Core.Path.{subst, fun_ext}
use mathlib.Core.List.{reverse, reverse-cons, reverse-reverse}
use casper_labs.Trie.{pointer_update, set_slot, Trie, leaf, node, extension}
use casper_labs.Trie.Operations.{
  Elements, TrieStore, Run, failed, panicked, out_of_fuel, trie_hash, pointer_to, encoded,
  rehash_loop, rehash, put_all,
}
use casper_labs.Trie.Encoding.{trie_codec}
use casper_labs.Trie.Operations.Paths.{Parents}
use casper_labs.Trie.Reading.{IsTrieStore}

-- A run does not panic or go on for ever, and what it returns meets the condition.
abbrev pub Runs : {E A : Type 0} → Run E A → (A → Type 0) → Type 0
Runs (ok a) P = P a
Runs (err (failed e)) P = ⊤
Runs (err panicked) P = ⊥
Runs (err out_of_fuel) P = ⊥

pub Runs->>= :
    {E A B : Type 0} (m : Run E A) (f : A → Run E B) (P : A → Type 0) (Q : B → Type 0)
    → Runs m P
    → ((a : A) → P a → Runs (f a) Q)
    → Runs (m >>= f) Q
Runs->>= (ok a) f P Q h k = k a h
Runs->>= (err (failed e)) f P Q h k = tt
Runs->>= (err panicked) f P Q h k = elim h [ ]
Runs->>= (err out_of_fuel) f P Q h k = elim h [ ]

pub Runs_mono :
    {E A : Type 0} (m : Run E A) (P Q : A → Type 0) → Runs m P → ((a : A) → P a → Q a) → Runs m Q
Runs_mono (ok a) P Q h k = k a h
Runs_mono (err (failed e)) P Q h k = tt
Runs_mono (err panicked) P Q h k = elim h [ ]
Runs_mono (err out_of_fuel) P Q h k = elim h [ ]

Runs_end :
    {E B C : Type 0} (m : Run E B) (g : B → C) (P : C → Type 0)
    → Runs m (λ b. P (g b))
    → Runs (m >>= λ b. ok (g b)) P
Runs_end m g P h = Runs->>= m (λ b. ok (g b)) (λ b. P (g b)) P h (λ b k. k)

pub Runs->>=_end :
    {E A B C : Type 0} (m : Run E A) (f : A → Run E B) (g : B → C) (P : C → Type 0)
    → Runs (m >>= f) (λ b. P (g b))
    → Runs (m >>= λ a. f a >>= λ b. ok (g b)) P
Runs->>=_end (ok a) f g P h = Runs_end (f a) g P h
Runs->>=_end (err (failed e)) f g P h = tt
Runs->>=_end (err panicked) f g P h = elim h [ ]
Runs->>=_end (err out_of_fuel) f g P h = elim h [ ]

pub Runs_with :
    {E A : Type 0} (m : Run E A) (P : A → Type 0) → Runs m P → Runs m (λ a. P a × (m ≡ ok a))
Runs_with (ok a) P h = (h, refl)
Runs_with (err (failed e)) P h = tt
Runs_with (err panicked) P h = elim h [ ]
Runs_with (err out_of_fuel) P h = elim h [ ]

pub Runs-map_err :
    {D E A : Type 0} (f : D → E) (m : Result D A)
    → Runs (map_err (λ e. failed (f e)) m) (λ a. m ≡ ok a)
Runs-map_err f (ok a) = refl
Runs-map_err f (err e) = tt

module _ {K V : Type 0} where
  -- The elements, as a rehash makes them from the tip with its hash upwards.
  abbrev pub Climbs : Parents K V → Trie K V → ℕ → List (ℕ × Trie K V) → Type 0
  Climbs [] tip h es = es ≡ []
  Climbs ((i, leaf _ _) ∷ parents) tip h es = ⊥
  Climbs ((i, node block) ∷ parents) tip h [] = ⊥
  Climbs ((i, node block) ∷ parents) tip h ((h', t) ∷ es) =
      (t ≡ node (set_slot block i (pointer_to tip h))) × Climbs parents t h' es
  Climbs ((i, extension affix p) ∷ parents) tip h [] = ⊥
  Climbs ((i, extension affix p) ∷ parents) tip h ((h', t) ∷ es) =
      (t ≡ extension affix (pointer_update h p)) × Climbs parents t h' es

  -- There are no leaves among the parents.
  abbrev pub NoLeaves : Parents K V → Type 0
  NoLeaves [] = ⊤
  NoLeaves ((i, leaf _ _) ∷ parents) = ⊥
  NoLeaves ((i, node _) ∷ parents) = NoLeaves parents
  NoLeaves ((i, extension _ _) ∷ parents) = NoLeaves parents

  -- With the elements of `look`, the root is what the tip under the parents amounts to.
  abbrev pub Rebuilt : (ℕ → Option (Trie K V)) → Parents K V → Trie K V → Trie K V → Type 0
  Rebuilt look [] tip root = root ≡ tip
  Rebuilt look ((i, leaf _ _) ∷ parents) tip root = ⊥
  Rebuilt look ((i, node block) ∷ parents) tip root =
      (h : ℕ) × (c : Trie K V) × (look h ≡ some c)
      × Rebuilt look parents tip c
      × (root ≡ node (set_slot block i (pointer_to c h)))
  Rebuilt look ((i, extension affix p) ∷ parents) tip root =
      (h : ℕ) × (c : Trie K V) × (look h ≡ some c)
      × Rebuilt look parents tip c
      × (root ≡ extension affix (pointer_update h p))

  pub Rebuilt-append :
      (look : ℕ → Option (Trie K V)) (p q : Parents K V) (tip root : Trie K V)
      → Rebuilt look (p ++ q) tip root
      → (c : Trie K V) × Rebuilt look q tip c × Rebuilt look p c root
  Rebuilt-append look [] q tip root r = (root, r, refl)
  Rebuilt-append look ((i, leaf k v) ∷ p) q tip root r = elim r [ ]
  Rebuilt-append look ((i, node block) ∷ p) q tip root (h, t, l, r, e) =
      let (c, x, y) = Rebuilt-append look p q tip t r in (c, x, (h, t, l, y, e))
  Rebuilt-append look ((i, extension affix ptr) ∷ p) q tip root (h, t, l, r, e) =
      let (c, x, y) = Rebuilt-append look p q tip t r in (c, x, (h, t, l, y, e))

  pub Rebuilt-join :
      (look : ℕ → Option (Trie K V)) (p q : Parents K V) (tip c root : Trie K V)
      → Rebuilt look q tip c
      → Rebuilt look p c root
      → Rebuilt look (p ++ q) tip root
  Rebuilt-join look [] q tip c root r e = rw e r
  Rebuilt-join look ((i, leaf k v) ∷ p) q tip c root r s = elim s [ ]
  Rebuilt-join look ((i, node block) ∷ p) q tip c root r (h, t, l, s, e) =
      (h, t, l, Rebuilt-join look p q tip c t r s, e)
  Rebuilt-join look ((i, extension affix ptr) ∷ p) q tip c root r (h, t, l, s, e) =
      (h, t, l, Rebuilt-join look p q tip c t r s, e)

  abbrev pub Present : (ℕ → Option (Trie K V)) → List (ℕ × Trie K V) → Type 0
  Present look [] = ⊤
  Present look ((h, t) ∷ es) = (look h ≡ some t) × Present look es

  abbrev pub last_element : ℕ × Trie K V → List (ℕ × Trie K V) → ℕ × Trie K V
  last_element e [] = e
  last_element e (e' ∷ es) = last_element e' es

  pub NoLeaves-append : (p q : Parents K V) → NoLeaves p → NoLeaves q → NoLeaves (p ++ q)
  NoLeaves-append [] q a b = b
  NoLeaves-append ((i, leaf _ _) ∷ p) q a b = elim a [ ]
  NoLeaves-append ((i, node _) ∷ p) q a b = NoLeaves-append p q a b
  NoLeaves-append ((i, extension _ _) ∷ p) q a b = NoLeaves-append p q a b

  NoLeaves-reverse : (p : Parents K V) → NoLeaves p → NoLeaves (reverse p)
  NoLeaves-reverse [] a = tt
  NoLeaves-reverse ((i, leaf _ _) ∷ p) a = elim a [ ]
  NoLeaves-reverse ((i, node b) ∷ p) a =
      rw (reverse-cons (i, node b) p)
        (NoLeaves-append (reverse p) ((i, node b) ∷ []) (NoLeaves-reverse p a) tt)
  NoLeaves-reverse ((i, extension x q) ∷ p) a =
      rw (reverse-cons (i, extension x q) p)
        (NoLeaves-append (reverse p) ((i, extension x q) ∷ []) (NoLeaves-reverse p a) tt)

  Climbs-Rebuilt :
      (look : ℕ → Option (Trie K V)) (parents : Parents K V) (tip : Trie K V) (h : ℕ)
      (es : List (ℕ × Trie K V))
      → Climbs parents tip h es
      → Present look ((h, tip) ∷ es)
      → Rebuilt look (reverse parents) tip (last_element (h, tip) es).1
        × (look (last_element (h, tip) es).0 ≡ some (last_element (h, tip) es).1)
  Climbs-Rebuilt look [] tip h es e p = rw e (refl, p.0)
  Climbs-Rebuilt look ((i, leaf k v) ∷ parents) tip h es e p = elim e [ ]
  Climbs-Rebuilt look ((i, node block) ∷ parents) tip h [] e p = elim e [ ]
  Climbs-Rebuilt look ((i, extension affix ptr) ∷ parents) tip h [] e p = elim e [ ]
  Climbs-Rebuilt look ((i, node block) ∷ parents) tip h ((h', t) ∷ es) (e, c) (l, p) =
      let (r, l') = Climbs-Rebuilt look parents t h' es c p in
      (
        rw (reverse-cons (i, node block) parents) (
            Rebuilt-join look (reverse parents) ((i, node block) ∷ []) tip t _ (h, tip, l, refl, e)
              r),
        l',
      )
  Climbs-Rebuilt look ((i, extension affix ptr) ∷ parents) tip h ((h', t) ∷ es) (e, c) (l, p) =
      let (r, l') = Climbs-Rebuilt look parents t h' es c p in
      (
        rw (reverse-cons (i, extension affix ptr) parents) (
            Rebuilt-join look (reverse parents) ((i, extension affix ptr) ∷ []) tip t _
              (h, tip, l, refl, e) r),
        l',
      )

  -- What a rehash makes: the tip first, and the new root last.
  abbrev pub Rehashed : Trie K V → Parents K V → List (ℕ × Trie K V) → Type 0
  Rehashed tip parents r =
      (h : ℕ) × (es : List (ℕ × Trie K V)) × (r ≡ (h, tip) ∷ es) × Climbs (reverse parents) tip h es

module _ {K V S E : Type 0} (types : Elements K V) (store : TrieStore K V S E) where
  pub trie_hash-Runs : (t : Trie K V) → Runs (trie_hash types store t) (λ h. ⊤)
  unfolding trie_hash
  trie_hash-Runs t =
      Runs->>= (encoded types store ((trie_codec types.key types.value).to_bytes t)) _ _ (λ h. ⊤)
        (Runs-map_err store.from_bytesrepr ((trie_codec types.key types.value).to_bytes t))
        (λ bytes e. tt)

  rehash_loop-Runs :
      (parents : Parents K V) (tip : Trie K V) (h : ℕ) (ret : List (ℕ × Trie K V))
      → NoLeaves parents
      → Runs
          (rehash_loop types store tip h parents ret)
          (λ r. (es : List (ℕ × Trie K V)) × (r ≡ ret ++ es) × Climbs parents tip h es)
  unfolding rehash_loop
  rehash_loop-Runs [] tip h ret n = ([], sym (append-nil ret), refl)
  rehash_loop-Runs ((i, leaf k v) ∷ parents) tip h ret n = elim n [ ]
  rehash_loop-Runs ((i, node block) ∷ parents) tip h ret n =
      let t = node (set_slot block i (pointer_to tip h)) in
      Runs->>= (trie_hash types store t) _ (λ _. ⊤) _ (trie_hash-Runs t)
        (λ h' _.
          Runs_mono (rehash_loop types store t h' parents (ret ++ (h', t) ∷ [])) _ _
            (rehash_loop-Runs parents t h' (ret ++ (h', t) ∷ []) n)
            (λ r (es, e, c). ((h', t) ∷ es, e ∙ append_assoc ret ((h', t) ∷ []) es, (refl, c))))
  rehash_loop-Runs ((i, extension affix p) ∷ parents) tip h ret n =
      let t = extension affix (pointer_update h p) in
      Runs->>= (trie_hash types store t) _ (λ _. ⊤) _ (trie_hash-Runs t)
        (λ h' _.
          Runs_mono (rehash_loop types store t h' parents (ret ++ (h', t) ∷ [])) _ _
            (rehash_loop-Runs parents t h' (ret ++ (h', t) ∷ []) n)
            (λ r (es, e, c). ((h', t) ∷ es, e ∙ append_assoc ret ((h', t) ∷ []) es, (refl, c))))

  pub rehash-Runs :
      (tip : Trie K V) (parents : Parents K V)
      → NoLeaves parents
      → Runs (rehash types store tip parents) (Rehashed tip parents)
  unfolding rehash
  rehash-Runs tip parents n =
      Runs->>= (trie_hash types store tip) _ (λ _. ⊤) _ (trie_hash-Runs tip)
        (λ h _.
          Runs_mono (rehash_loop types store tip h (reverse parents) ((h, tip) ∷ [])) _ _
            (rehash_loop-Runs (reverse parents) tip h ((h, tip) ∷ []) (NoLeaves-reverse parents n))
            (λ r (es, e, c). (h, es, e, c)))

module _ {K V : Type 0} where
  pub Climbs-root :
      (look : ℕ → Option (Trie K V)) (parents : Parents K V) (tip : Trie K V) (h : ℕ)
      (es : List (ℕ × Trie K V))
      → Climbs (reverse parents) tip h es
      → Present look ((h, tip) ∷ es)
      → Rebuilt look parents tip (last_element (h, tip) es).1
        × (look (last_element (h, tip) es).0 ≡ some (last_element (h, tip) es).1)
  Climbs-root look parents tip h es c p =
      let (r, l) = Climbs-Rebuilt look (reverse parents) tip h es c p in
      (subst (λ q. Rebuilt look q tip (last_element (h, tip) es).1) (reverse-reverse parents) r, l)

  -- All that was there is still there.
  abbrev pub Extends : (ℕ → Option (Trie K V)) → (ℕ → Option (Trie K V)) → Type 0
  Extends look look' = (h : ℕ) (t : Trie K V) → look h ≡ some t → look' h ≡ some t

  abbrev pub with_element : (ℕ → Option (Trie K V)) → ℕ → Trie K V → ℕ → Option (Trie K V)
  with_element look h t j = if j == h then some t else look j

  -- No element has the hash of another one, neither of those that are there nor of those before it.
  abbrev pub Uncollided : (ℕ → Option (Trie K V)) → List (ℕ × Trie K V) → Type 0
  Uncollided look [] = ⊤
  Uncollided look ((h, t) ∷ es) =
      ((look h ≡ none) ⊎ (look h ≡ some t)) × Uncollided (with_element look h t) es

  element_kept :
      (look : ℕ → Option (Trie K V)) (h : ℕ) (t : Trie K V) {u : Trie K V}
      → (look h ≡ none) ⊎ (look h ≡ some t)
      → look h ≡ some u
      → some t ≡ some u
  element_kept look h t (inl c) e = ground arith
  element_kept look h t (inr c) e = sym c ∙ e

  with_element-Extends :
      (look : ℕ → Option (Trie K V)) (h : ℕ) (t : Trie K V)
      → (look h ≡ none) ⊎ (look h ≡ some t)
      → Extends look (with_element look h t)
  with_element-Extends look h t c j u e = elim (Bool-cases (j == h)) [
    | inl here ↦ rw here (element_kept look h t c (ap look (sym ((==_iff j h).0 here)) ∙ e))
    | inr there ↦ rw there e
  ]

  with_element_self :
      (look : ℕ → Option (Trie K V)) (h : ℕ) (t : Trie K V) → with_element look h t h ≡ some t
  with_element_self look h t = ground arith

module _ {K V S E : Type 0} (store : TrieStore K V S E) (look : S → ℕ → Option (Trie K V))
    (law : IsTrieStore store look) (types : Elements K V) where
  put_step :
      (root : ℕ) (e : ℕ × Trie K V) (es : List (ℕ × Trie K V)) (s s' : S)
      → store.put e.0 e.1 s ≡ ok s'
      → put_all types store root (e ∷ es) s ≡ put_all types store e.0 es s'
  unfolding put_all
  put_step root (h, t) es s s' done = rw done refl

  pub put_all_lem :
      (root : ℕ) (e : ℕ × Trie K V) (es : List (ℕ × Trie K V)) (s : S)
      → Uncollided (look s) (e ∷ es)
      → (s' : S) × (put_all types store root (e ∷ es) s ≡ ok ((last_element e es).0, s'))
        × Extends (look s) (look s')
        × Present (look s') (e ∷ es)
  unfolding put_all
  put_all_lem root (h, t) [] s (c, u) =
      let (s', done, l) = law.puts h t s in
      let same : look s' ≡ with_element (look s) h t = fun_ext l in
      (
        s',
        ground (arith, done),
        subst (λ l'. Extends (look s) l') (sym same) (with_element-Extends (look s) h t c),
        (l h ∙ with_element_self (look s) h t, tt),
      )
  put_all_lem root (h, t) (e ∷ es) s (c, u) =
      let (s', done, l) = law.puts h t s in
      let same : look s' ≡ with_element (look s) h t = fun_ext l in
      let (s'', done', ext, present) =
        put_all_lem h e es s' (subst (λ l'. Uncollided l' (e ∷ es)) (sym same) u) in
      (
        s'',
        put_step root (h, t) (e ∷ es) s s' done ∙ done',
        (λ j u' found. ext j u' (
            subst (λ l'. Extends (look s) l') (sym same) (with_element-Extends (look s) h t c) j u'
              found)),
        (ext h t (l h ∙ with_element_self (look s) h t), present),
      )
