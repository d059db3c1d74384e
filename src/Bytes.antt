-- ===== src/Bytes.antt =====
-- Byte encodings: the traits `ToBytes` and `FromBytes` of execution-engine/types/src/bytesrepr.rs, as
-- a record for each type, and the types that this file encodes. A `Vec<u8>` is a list of numbers
-- below 256. The allocator is taken to have memory, so that `try_reserve_exact` succeeds.
pub mod Numbers
pub mod Laws
pub mod Integers
pub mod Containers
pub mod Sequences
pub mod Maps
pub mod Shared
pub mod SharedLaws
pub mod Accounts
pub mod AccountLaws
pub mod Queues
mod Tests
use casper_labs.Base.{
  ℕ, zero, suc, ◌+◌, ◌*◌, ◌-◌, ◌^◌, Bool, true, false, Option, none, some, List, [], ◌∷◌, ◌++◌,
  length, Result, ok, err, ◌>>=◌, ltb, leb, ◌==◌, if◌then◌else◌, ⊤,
}
use casper_labs.Values.{
  BytesreprError, early_end_of_stream, formatting_error, out_of_memory_error, left_over_bytes,
}

abbrev pub Bytes : Type 0
Bytes = List ℕ

pub record Codec (A : Type 0) : Type 0 where
  pub to_bytes : A → Result BytesreprError Bytes
  pub from_bytes : Bytes → Result BytesreprError (A × Bytes)

unfoldable pub deserialize : {A : Type 0} → Codec A → Bytes → Result BytesreprError A
deserialize c bytes = do
  (t, remainder) ← c.from_bytes bytes
  elim remainder [ [] ↦ ok t | _ ∷ _ ↦ err left_over_bytes ]

abbrev pub take : ℕ → Bytes → Bytes
take zero bytes = []
take (suc n) [] = []
take (suc n) (b ∷ bytes) = b ∷ take n bytes

abbrev pub drop : ℕ → Bytes → Bytes
drop zero bytes = bytes
drop (suc n) [] = []
drop (suc n) (b ∷ bytes) = drop n bytes

unfoldable pub safe_split_at : Bytes → ℕ → Result BytesreprError (Bytes × Bytes)
safe_split_at bytes n =
    if ltb (length bytes) n then err early_end_of_stream else ok (take n bytes, drop n bytes)
