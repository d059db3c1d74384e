-- ===== src/Bytes/Shared.antt =====
-- The encodings of keys, references, versions, phases and the mint's errors:
-- execution-engine/types/src/{access_rights,uref,key,semver,account,phase}.rs and
-- execution-engine/types/src/system_contract_errors/mint.rs. What only wraps another type is encoded
-- as that type: `ProtocolVersion`, `PurseId`, `PublicKey`, `Weight` and `BlockTime`.
use casper_labs.Base.{
  ℕ, false, Option, none, some, List, [], ◌∷◌, ◌++◌, Result, ok, err, ◌>>=◌, leb, ◌==◌,
  if◌then◌else◌,
}
use casper_labs.Types.{AccessRights, URef, Key, account, hash, uref, local}
use casper_labs.Version.{SemVer}
use casper_labs.Mint.{MintError, error_as_u8, error_try_from}
use casper_labs.Values.{BytesreprError, formatting_error}
use casper_labs.Bytes.{Bytes, Codec}
use casper_labs.Bytes.Numbers.{u8_codec, u32_codec, array_codec}
use casper_labs.Bytes.Containers.{option_codec, counted_codec}

-- `AccessRights::from_bits`: no bit but those of the three flags is set.
unfoldable pub access_rights_of : ℕ → Bytes → Result BytesreprError (AccessRights × Bytes)
access_rights_of id rem = if leb id 7 then ok (id, rem) else err formatting_error

unfoldable pub access_rights_codec : Codec AccessRights
unfolding u8_codec access_rights_of
access_rights_codec = record {
  to_bytes = λ r. u8_codec.to_bytes r;
  from_bytes = λ bytes. u8_codec.from_bytes bytes >>= λ (id, rem). access_rights_of id rem;
}

unfoldable pub uref_codec : Codec URef
uref_codec = record {
  to_bytes = λ u. (array_codec 32).to_bytes u.addr >>= λ addr.
      (option_codec access_rights_codec).to_bytes u.access_rights >>= λ rights. ok (addr ++ rights);
  from_bytes = λ bytes. (array_codec 32).from_bytes bytes >>= λ (id, rem).
      (option_codec access_rights_codec).from_bytes rem >>= λ (rights, rem').
      ok (record { addr = id; access_rights = rights }, rem');
}

unfoldable pub key_to_bytes : Key → Result BytesreprError Bytes
key_to_bytes (account addr) = (array_codec 32).to_bytes addr >>= λ bytes. ok (0 ∷ bytes)
key_to_bytes (hash h) = (array_codec 32).to_bytes h >>= λ bytes. ok (1 ∷ bytes)
key_to_bytes (uref u) = uref_codec.to_bytes u >>= λ bytes. ok (2 ∷ bytes)
key_to_bytes (local h) = (array_codec 32).to_bytes h >>= λ bytes. ok (3 ∷ bytes)

unfoldable pub key_of : ℕ → Bytes → Result BytesreprError (Key × Bytes)
key_of id rest =
    if id == 0
    then ((array_codec 32).from_bytes rest >>= λ (addr, rem). ok (account addr, rem))
    else if id == 1
    then ((array_codec 32).from_bytes rest >>= λ (h, rem). ok (hash h, rem))
    else if id == 2
    then (uref_codec.from_bytes rest >>= λ (u, rem). ok (uref u, rem))
    else if id == 3
    then ((array_codec 32).from_bytes rest >>= λ (h, rem). ok (local h, rem))
    else err formatting_error

unfoldable pub key_codec : Codec Key
unfolding key_to_bytes key_of u8_codec
key_codec = record {
  to_bytes = key_to_bytes;
  from_bytes = λ bytes. u8_codec.from_bytes bytes >>= λ (id, rest). key_of id rest;
}

-- `Vec<Key>` and `Vec<URef>`
abbrev pub vec_key_codec : Codec (List Key)
vec_key_codec = counted_codec key_codec (λ _. false)

abbrev pub vec_uref_codec : Codec (List URef)
vec_uref_codec = counted_codec uref_codec (λ _. false)

unfoldable pub sem_ver_codec : Codec SemVer
sem_ver_codec = record {
  to_bytes = λ v. u32_codec.to_bytes v.major >>= λ x.
      u32_codec.to_bytes v.minor >>= λ y. u32_codec.to_bytes v.patch >>= λ z. ok ((x ++ y) ++ z);
  from_bytes = λ bytes. u32_codec.from_bytes bytes >>= λ (major, rem).
      u32_codec.from_bytes rem >>= λ (minor, rem'). u32_codec.from_bytes rem' >>= λ (patch, end).
      ok (record { major = major; minor = minor; patch = patch }, end);
}

pub data Phase : Type 0 where
  system payment session finalize_payment : Phase

-- `to_u8` and `from_u8`
abbrev pub phase_to_u8 : Phase → ℕ
phase_to_u8 system = 0
phase_to_u8 payment = 1
phase_to_u8 session = 2
phase_to_u8 finalize_payment = 3

abbrev pub phase_from_u8 : ℕ → Option Phase
phase_from_u8 id =
    if id == 0
    then some system
    else if id == 1
    then some payment
    else if id == 2
    then some session
    else if id == 3
    then some finalize_payment
    else none

unfoldable pub phase_codec : Codec Phase
unfolding u8_codec
phase_codec = record {
  to_bytes = λ phase. ok (phase_to_u8 phase ∷ []);
  from_bytes = λ bytes. u8_codec.from_bytes bytes >>= λ (id, rest). elim (phase_from_u8 id) [
    | some phase ↦ ok (phase, rest)
    | none ↦ err formatting_error
  ];
}

unfoldable pub mint_error_codec : Codec MintError
unfolding u8_codec error_as_u8 error_try_from
mint_error_codec = record {
  to_bytes = λ e. u8_codec.to_bytes (error_as_u8 e);
  from_bytes = λ bytes. u8_codec.from_bytes bytes >>= λ (value, rem). elim (error_try_from value) [
    | ok e ↦ ok (e, rem)
    | err _ ↦ err formatting_error
  ];
}
