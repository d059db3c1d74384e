-- ===== src/Bytes/SharedLaws.antt =====
-- Keys, references, versions and phases, encoded as in execution-engine/types/src.
use casper_labs.Base.{
  ℕ, ◌^◌, ◌<◌, ◌≤◌, ◌≡◌, refl, Option, none, some, [], ◌∷◌, ◌++◌, append_assoc, length,
  length-append, ok, >>=-ok, ⊤, arith,
}
use casper_labs.Types.{AccessRights, URef, Key, account, hash, uref, local}
use casper_labs.Bytes.{Bytes}
use casper_labs.Bytes.Laws.{RoundTrips}
use casper_labs.Bytes.Numbers.{u32_codec, array_codec}
use casper_labs.Bytes.Integers.{array_codec-RoundTrips, array_codec-length, fixed_codec-RoundTrips}
use casper_labs.Bytes.Containers.{option_codec}
use casper_labs.Bytes.Sequences.{option_codec-RoundTrips, Given}
use casper_labs.Bytes.Shared.{
  access_rights_codec, uref_codec, key_codec, sem_ver_codec, phase_codec, system, payment, session,
  finalize_payment,
}

access_rights_codec-RoundTrips : RoundTrips access_rights_codec (λ r. r ≤ 7)
unfolding access_rights_codec
access_rights_codec-RoundTrips r bytes rest v e = ground arith

abbrev pub IsAddress : ℕ → Type 0
IsAddress a = a < 256 ^ 32

abbrev pub URefInRange : URef → Type 0
URefInRange u = IsAddress u.addr × Given (λ r. r ≤ 7) u.access_rights

rights_codec-RoundTrips : RoundTrips (option_codec access_rights_codec) (Given (λ r. r ≤ 7))
rights_codec-RoundTrips = option_codec-RoundTrips access_rights_codec access_rights_codec-RoundTrips

pub uref_codec-RoundTrips : RoundTrips uref_codec URefInRange
unfolding uref_codec
uref_codec-RoundTrips u bytes rest (v, w) e =
    let (x, h, e') = >>=-ok ((array_codec 32).to_bytes u.addr) _ e in
    let (y, k, e'') = >>=-ok ((option_codec access_rights_codec).to_bytes u.access_rights) _ e' in
    ground (
      arith,
      append_assoc x y rest,
      array_codec-RoundTrips 32 u.addr x (y ++ rest) v h,
      rights_codec-RoundTrips u.access_rights y rest w k,
    )

abbrev pub KeyInRange : Key → Type 0
KeyInRange (account a) = IsAddress a
KeyInRange (hash h) = IsAddress h
KeyInRange (uref u) = URefInRange u
KeyInRange (local h) = IsAddress h

pub key_codec-RoundTrips : RoundTrips key_codec KeyInRange
unfolding key_codec
key_codec-RoundTrips (account a) bytes rest v e =
    let (x, h, k) = >>=-ok ((array_codec 32).to_bytes a) _ e in
    ground (arith, array_codec-RoundTrips 32 a x rest v h)
key_codec-RoundTrips (hash a) bytes rest v e =
    let (x, h, k) = >>=-ok ((array_codec 32).to_bytes a) _ e in
    ground (arith, array_codec-RoundTrips 32 a x rest v h)
key_codec-RoundTrips (uref u) bytes rest v e =
    let (x, h, k) = >>=-ok (uref_codec.to_bytes u) _ e in
    ground (arith, uref_codec-RoundTrips u x rest v h)
key_codec-RoundTrips (local a) bytes rest v e =
    let (x, h, k) = >>=-ok ((array_codec 32).to_bytes a) _ e in
    ground (arith, array_codec-RoundTrips 32 a x rest v h)

rights_codec-length :
    (r : Option AccessRights)
    → (bytes : Bytes) × ((option_codec access_rights_codec).to_bytes r ≡ ok bytes)
      × (length bytes ≤ 2)
unfolding option_codec access_rights_codec
rights_codec-length none = (0 ∷ [], refl, omega arith)
rights_codec-length (some r) = (1 ∷ r ∷ [], refl, omega arith)

uref_codec-length :
    (u : URef) → (bytes : Bytes) × (uref_codec.to_bytes u ≡ ok bytes) × (length bytes ≤ 34)
unfolding uref_codec
uref_codec-length u =
    let (x, h, n) = array_codec-length 32 u.addr in
    let (y, k, m) = rights_codec-length u.access_rights in
    (x ++ y, ground (arith, h, k), omega (arith, length-append x y))

key_codec-length :
    (k : Key) → (bytes : Bytes) × (key_codec.to_bytes k ≡ ok bytes) × (length bytes ≤ 35)
unfolding key_codec
key_codec-length (account a) =
    let (x, h, n) = array_codec-length 32 a in (0 ∷ x, ground (arith, h), omega arith)
key_codec-length (hash a) =
    let (x, h, n) = array_codec-length 32 a in (1 ∷ x, ground (arith, h), omega arith)
key_codec-length (uref u) =
    let (x, h, n) = uref_codec-length u in (2 ∷ x, ground (arith, h), omega arith)
key_codec-length (local a) =
    let (x, h, n) = array_codec-length 32 a in (3 ∷ x, ground (arith, h), omega arith)

-- A key in range has bytes, at most 35, and they are read back as the key, whatever follows them.
pub key_codec_total :
    (k : Key) (rest : Bytes)
    → KeyInRange k
    → (bytes : Bytes) × (key_codec.to_bytes k ≡ ok bytes)
      × (length bytes ≤ 35)
      × (key_codec.from_bytes (bytes ++ rest) ≡ ok (k, rest))
key_codec_total k rest v =
    let (bytes, h, n) = key_codec-length k in (bytes, h, n, key_codec-RoundTrips k bytes rest v h)

pub sem_ver_codec-RoundTrips :
    RoundTrips sem_ver_codec (λ v. (v.major < 2 ^ 32) × (v.minor < 2 ^ 32) × (v.patch < 2 ^ 32))
unfolding sem_ver_codec
sem_ver_codec-RoundTrips v bytes rest (p, q, r) e =
    let (x, h, e') = >>=-ok (u32_codec.to_bytes v.major) _ e in
    let (y, k, e'') = >>=-ok (u32_codec.to_bytes v.minor) _ e' in
    let (z, l, e''') = >>=-ok (u32_codec.to_bytes v.patch) _ e'' in
    ground (
      arith,
      append_assoc (x ++ y) z rest,
      append_assoc x y (z ++ rest),
      fixed_codec-RoundTrips 4 v.major x (y ++ (z ++ rest)) p h,
      fixed_codec-RoundTrips 4 v.minor y (z ++ rest) q k,
      fixed_codec-RoundTrips 4 v.patch z rest r l,
    )

pub phase_codec-RoundTrips : RoundTrips phase_codec (λ _. ⊤)
unfolding phase_codec
phase_codec-RoundTrips system bytes rest v e = ground arith
phase_codec-RoundTrips payment bytes rest v e = ground arith
phase_codec-RoundTrips session bytes rest v e = ground arith
phase_codec-RoundTrips finalize_payment bytes rest v e = ground arith
