-- ===== src/Bytes/Maps.antt =====
-- Maps, encoded as in execution-engine/types/src/bytesrepr.rs.
use casper_labs.Base.{
  ℕ, ◌^◌, ◌%◌, ◌<◌, ◌≡◌, refl, sym, ap, ◌∙◌, List, [], ◌∷◌, ◌++◌, append_assoc, append-nil, length,
  All, ok, >>=-ok, ⊤, arith,
}
use casper_labs.BtreeMap.{BtreeMap, insert, keys, Above, IsAscending}
use casper_labs.Bytes.{Bytes, Codec}
use casper_labs.Bytes.Laws.{RoundTrips}
use casper_labs.Bytes.Numbers.{u32_codec}
use casper_labs.Bytes.Integers.{fixed_codec-RoundTrips}
use casper_labs.Bytes.Containers.{write_entries, read_entries, btree_codec}

-- An entry above all others is inserted behind them.
pub insert-above :
    {V : Type 0} (m : BtreeMap V) (k : ℕ) (v : V)
    → All (λ j. j < k) (keys m)
    → insert k v m ≡ m ++ (k, v) ∷ []
insert-above [] k v h = refl
insert-above ((j, w) ∷ m) k v (lt, h) = ground (arith, insert-above m k v h)

pub All-nothing : (ks : List ℕ) → All (λ (k : ℕ). ⊤) ks
All-nothing [] = tt
All-nothing (k ∷ ks) = (tt, All-nothing ks)

module _ {V : Type 0} where
  abbrev pub Below : BtreeMap V → ℕ → Type 0
  Below done k = All (λ j. j < k) (keys done)

  -- Each entry of the second map comes behind all entries before it.
  abbrev pub Follows : BtreeMap V → BtreeMap V → Type 0
  Follows done [] = ⊤
  Follows done ((k, v) ∷ m) = Below done k × Follows (done ++ (k, v) ∷ []) m

  Below-append :
      (done : BtreeMap V) (k i : ℕ) (v : V) → Below done i → k < i → Below (done ++ (k, v) ∷ []) i
  Below-append [] k i v b lt = (lt, tt)
  Below-append ((j, w) ∷ done) k i v (lt', b) lt = (lt', Below-append done k i v b lt)

  Below-All-append :
      (done : BtreeMap V) (k : ℕ) (v : V) (ks : List ℕ)
      → All (Below done) ks
      → Above k ks
      → All (Below (done ++ (k, v) ∷ [])) ks
  Below-All-append done k v [] b a = tt
  Below-All-append done k v (i ∷ ks) (b, bs) (lt, a) =
      (Below-append done k i v b lt, Below-All-append done k v ks bs a)

  pub IsAscending-Follows :
      (done m : BtreeMap V) → All (Below done) (keys m) → IsAscending (keys m) → Follows done m
  IsAscending-Follows done [] b a = tt
  IsAscending-Follows done ((k, v) ∷ m) (b, bs) (above, a) = (
    b,
    IsAscending-Follows (done ++ (k, v) ∷ []) m (Below-All-append done k v (keys m) bs above) a,
  )

abbrev pub ValidEntries : {V : Type 0} → (ℕ → Type 0) → (V → Type 0) → BtreeMap V → Type 0
ValidEntries P Q [] = ⊤
ValidEntries P Q ((key, v) ∷ m) = P key × Q v × ValidEntries P Q m

module _ {V : Type 0} {P : ℕ → Type 0} {Q : V → Type 0} (k : Codec ℕ) (c : Codec V)
    (rt : RoundTrips k P) (rt' : RoundTrips c Q) where
  read_entries-write_entries :
      (m done : BtreeMap V) (bytes rest : Bytes)
      → ValidEntries P Q m
      → Follows done m
      → write_entries c k m ≡ ok bytes
      → read_entries c k (length m) done (bytes ++ rest) ≡ ok (done ++ m, rest)
  unfolding write_entries read_entries
  read_entries-write_entries [] done bytes rest v f e = ground (arith, append-nil done)
  read_entries-write_entries ((key, w) ∷ m) done bytes rest (p, q, v) f e =
      let (x, h, e') = >>=-ok (k.to_bytes key) _ e in
      let (y, l, e'') = >>=-ok (c.to_bytes w) _ e' in
      let (more, n, e''') = >>=-ok (write_entries c k m) _ e'' in
      ground (
        arith,
        append_assoc x (y ++ more) rest,
        append_assoc y more rest,
        rt key x (y ++ (more ++ rest)) p h,
        rt' w y (more ++ rest) q l,
        insert-above done key w f.0,
        append_assoc done ((key, w) ∷ []) m,
        read_entries-write_entries m (done ++ (key, w) ∷ []) more rest v f.1 n,
      )

  pub btree_codec-RoundTrips :
      RoundTrips
        (btree_codec c k)
        (λ m. ValidEntries P Q m × IsAscending (keys m) × (length m < 2 ^ 32))
  unfolding btree_codec
  btree_codec-RoundTrips m bytes rest (v, a, short) e =
      let (all, h, e') = >>=-ok (write_entries c k m) _ e in
      let (size, l, e'') = >>=-ok (u32_codec.to_bytes (length m % 2 ^ 32)) _ e' in
      let cut : length m % 2 ^ 32 ≡ length m = omega arith in
      ground (
        arith,
        append_assoc size all rest,
        fixed_codec-RoundTrips 4 (length m) size (all ++ rest) short
            (sym (ap u32_codec.to_bytes cut) ∙ l),
        read_entries-write_entries m [] all rest v
            (IsAscending-Follows [] m (All-nothing (keys m)) a) h,
      )
