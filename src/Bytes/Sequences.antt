-- ===== src/Bytes/Sequences.antt =====
-- Options, lists, arrays, maps and tuples, encoded as in execution-engine/types/src/bytesrepr.rs.
use casper_labs.Base.{
  ℕ, ◌*◌, ◌-◌, ◌^◌, ◌%◌, ◌<◌, ◌≡◌, refl, sym, ap, ◌∙◌, Bool, true, false, Bool-cases, inl, inr,
  Option, none, some, List, [], ◌∷◌, ◌++◌, append_assoc, length, leb, All, Result, ok, err, >>=-ok,
  ⊤, if◌then◌else◌, arith,
}
use casper_labs.Values.{BytesreprError}
use casper_labs.Bytes.{Bytes, Codec}
use casper_labs.Bytes.Laws.{RoundTrips, safe_split_at-append}
use casper_labs.Bytes.Numbers.{u8_codec, u32_codec}
use casper_labs.Bytes.Integers.{fixed_codec-RoundTrips}
use casper_labs.Bytes.Containers.{
  u32_max_value, option_codec, write_all, read_n, counted_codec, array_of_codec, vec_u8_codec,
  pair_codec, triple_codec, result_codec,
}

pub not_too_long :
    {A : Type 0} (b : Bool) (e : BytesreprError) (m : Result BytesreprError A) {a : A}
    → (if b then err e else m) ≡ ok a
    → m ≡ ok a
not_too_long true e m h = ground arith
not_too_long false e m h = h

abbrev pub Given : {A : Type 0} → (A → Type 0) → Option A → Type 0
Given P none = ⊤
Given P (some a) = P a

module _ {A : Type 0} {P : A → Type 0} (c : Codec A) (rt : RoundTrips c P) where
  pub option_codec-RoundTrips : RoundTrips (option_codec c) (Given P)
  unfolding option_codec
  option_codec-RoundTrips none bytes rest v e = ground arith
  option_codec-RoundTrips (some a) bytes rest v e =
      let (value, h, k) = >>=-ok (c.to_bytes a) _ e in ground (arith, rt a value rest v h)

  pub read_n-write_all :
      (xs : List A) (bytes rest : Bytes)
      → All P xs
      → write_all c xs ≡ ok bytes
      → read_n c (length xs) (bytes ++ rest) ≡ ok (xs, rest)
  unfolding write_all read_n
  read_n-write_all [] bytes rest v e = ground arith
  read_n-write_all (x ∷ xs) bytes rest v e =
      let (first, h, e') = >>=-ok (c.to_bytes x) _ e in
      let (more, k, e'') = >>=-ok (write_all c xs) _ e' in
      ground (
        arith,
        append_assoc first more rest,
        rt x first (more ++ rest) v.0 h,
        read_n-write_all xs more rest v.1 k,
      )

  pub counted_codec-RoundTrips :
      (is_too_long : List A → Bool)
      → RoundTrips (counted_codec c is_too_long) (λ xs. All P xs × (length xs < 2 ^ 32))
  unfolding counted_codec
  counted_codec-RoundTrips is_too_long xs bytes rest (v, short) e =
      let (size, h, e') =
        >>=-ok (u32_codec.to_bytes (length xs % 2 ^ 32)) _ (not_too_long (is_too_long xs) _ _ e) in
      let (all, k, e'') = >>=-ok (write_all c xs) _ e' in
      let cut : length xs % 2 ^ 32 ≡ length xs = omega arith in
      ground (
        arith,
        append_assoc size all rest,
        fixed_codec-RoundTrips 4 (length xs) size (all ++ rest) short
            (sym (ap u32_codec.to_bytes cut) ∙ h),
        read_n-write_all xs all rest v k,
      )

  pub array_of_codec-RoundTrips :
      (n size_of : ℕ)
      → n < 2 ^ 32
      → RoundTrips (array_of_codec c n size_of) (λ xs. All P xs × (length xs ≡ n))
  unfolding array_of_codec
  array_of_codec-RoundTrips n size_of small xs bytes rest (v, full) e =
      let (size, h, e') =
        >>=-ok (u32_codec.to_bytes n) _ (not_too_long (leb u32_max_value (n * size_of)) _ _ e) in
      let (all, k, e'') = >>=-ok (write_all c xs) _ e' in
      ground (
        arith,
        append_assoc size all rest,
        fixed_codec-RoundTrips 4 n size (all ++ rest) small h,
        (ap (λ m. read_n c m (all ++ rest)) (sym full) ∙ read_n-write_all xs all rest v k),
      )

pub vec_u8_codec-RoundTrips : RoundTrips vec_u8_codec (λ v. ⊤)
unfolding vec_u8_codec
vec_u8_codec-RoundTrips xs bytes rest v e =
    elim (Bool-cases (leb (u32_max_value - 4) (length xs))) [
      | inl long ↦ ground arith
      | inr fits ↦
          let (size, h, e') =
            >>=-ok (u32_codec.to_bytes (length xs)) _
              (not_too_long (leb (u32_max_value - 4) (length xs)) _ _ e) in
          ground (
            arith,
            append_assoc size xs rest,
            fixed_codec-RoundTrips 4 (length xs) size (xs ++ rest) (ground arith) h,
            safe_split_at-append xs rest (length xs) refl,
          )
    ]

module _ {A B : Type 0} {P : A → Type 0} {Q : B → Type 0} (c : Codec A) (d : Codec B)
    (rt : RoundTrips c P) (rt' : RoundTrips d Q) where
  pub pair_codec-RoundTrips : RoundTrips (pair_codec c d) (λ p. P p.0 × Q p.1)
  unfolding pair_codec
  pair_codec-RoundTrips (a, b) bytes rest (v, w) e =
      let (x, h, e') = >>=-ok (c.to_bytes a) _ e in
      let (y, k, e'') = >>=-ok (d.to_bytes b) _ e' in
      ground (arith, append_assoc x y rest, rt a x (y ++ rest) v h, rt' b y rest w k)

  abbrev pub Either : Result A B → Type 0
  Either (ok b) = Q b
  Either (err a) = P a

  pub result_codec-RoundTrips : RoundTrips (result_codec c d) Either
  unfolding result_codec u8_codec
  result_codec-RoundTrips (ok b) bytes rest v e =
      let (value, h, k) = >>=-ok (d.to_bytes b) _ e in ground (arith, rt' b value rest v h)
  result_codec-RoundTrips (err a) bytes rest v e =
      let (value, h, k) = >>=-ok (c.to_bytes a) _ e in ground (arith, rt a value rest v h)

pub triple_codec-RoundTrips :
    {A B C : Type 0} {P : A → Type 0} {Q : B → Type 0} {R : C → Type 0} (c : Codec A) (d : Codec B)
    (f : Codec C)
    → RoundTrips c P
    → RoundTrips d Q
    → RoundTrips f R
    → RoundTrips (triple_codec c d f) (λ t. P t.0 × Q t.1 × R t.2)
unfolding triple_codec
triple_codec-RoundTrips c d f rt rt' rt'' (a, b, g) bytes rest (v, w, u) e =
    let (x, h, e') = >>=-ok (c.to_bytes a) _ e in
    let (y, k, e'') = >>=-ok (d.to_bytes b) _ e' in
    let (z, l, e''') = >>=-ok (f.to_bytes g) _ e'' in
    ground (
      arith,
      append_assoc (x ++ y) z rest,
      append_assoc x y (z ++ rest),
      rt a x (y ++ (z ++ rest)) v h,
      rt' b y (z ++ rest) w k,
      rt'' g z rest u l,
    )
