-- ===== src/Bytes/Numbers.antt =====
-- The encodings of numbers: `bool`, `u8`, `i32`, `u32`, `i64`, `u64` and the byte arrays of
-- execution-engine/types/src/bytesrepr.rs, and the big numbers of execution-engine/types/src/uint.rs.
-- A signed number stands as its bits in two's complement, a byte array as the number that it spells,
-- most significant byte first.
use casper_labs.Base.{
  ℕ, zero, suc, ◌+◌, ◌*◌, ◌/◌, ◌%◌, Bool, true, false, [], ◌∷◌, length, Result, ok, err, ◌>>=◌, ltb,
  ◌==◌, if◌then◌else◌,
}
use mathlib.Core.List.{reverse}
use casper_labs.Values.{BytesreprError, early_end_of_stream, formatting_error}
use casper_labs.Bytes.{Bytes, Codec, safe_split_at}

-- `to_le_bytes`, of a number of `k` bytes, and `from_le_bytes`
unfoldable pub le_bytes : ℕ → ℕ → Bytes
le_bytes zero n = []
le_bytes (suc k) n = (n % 256) ∷ le_bytes k (n / 256)

unfoldable pub from_le : Bytes → ℕ
from_le [] = 0
from_le (b ∷ bytes) = b + 256 * from_le bytes

-- `bytes.split_first()`
unfoldable pub first_byte : Bytes → Result BytesreprError (ℕ × Bytes)
first_byte [] = err early_end_of_stream
first_byte (byte ∷ rem) = ok (byte, rem)

unfoldable pub bool_of : ℕ → Bytes → Result BytesreprError (Bool × Bytes)
bool_of byte rem =
    if byte == 1
    then ok (true, rem)
    else if byte == 0
    then ok (false, rem)
    else err formatting_error

unfoldable pub bool_codec : Codec Bool
unfolding first_byte bool_of
bool_codec = record {
  to_bytes = λ b. ok ((if b then 1 else 0) ∷ []);
  from_bytes = λ bytes. first_byte bytes >>= λ (byte, rem). bool_of byte rem;
}

unfoldable pub u8_codec : Codec ℕ
unfolding first_byte
u8_codec = record { to_bytes = λ n. ok (n ∷ []); from_bytes = λ bytes. first_byte bytes }

-- `i32`, `u32`, `i64` and `u64`, by their number of bytes
unfoldable pub fixed_codec : ℕ → Codec ℕ
unfolding le_bytes from_le safe_split_at
fixed_codec k = record {
  to_bytes = λ n. ok (le_bytes k n);
  from_bytes = λ bytes. safe_split_at bytes k >>= λ (digits, rem). ok (from_le digits, rem);
}

abbrev pub i32_codec : Codec ℕ
i32_codec = fixed_codec 4

abbrev pub u32_codec : Codec ℕ
u32_codec = fixed_codec 4

abbrev pub i64_codec : Codec ℕ
i64_codec = fixed_codec 8

abbrev pub u64_codec : Codec ℕ
u64_codec = fixed_codec 8

-- `[u8; len]`
unfoldable pub array_codec : ℕ → Codec ℕ
unfolding le_bytes from_le safe_split_at
array_codec len = record {
  to_bytes = λ n. ok (reverse (le_bytes len n));
  from_bytes =
      λ bytes. safe_split_at bytes len >>= λ (digits, rem). ok (from_le (reverse digits), rem);
}

-- `skip_while(|b| **b == 0)`
unfoldable pub skip_zeros : Bytes → Bytes
skip_zeros [] = []
skip_zeros (b ∷ bytes) = let rest = skip_zeros bytes in if b == 0 then rest else b ∷ bytes

-- `non_zero_bytes`, after `reverse()` and without the length
unfoldable pub trimmed : ℕ → ℕ → Bytes
unfolding le_bytes skip_zeros
trimmed total_bytes n = reverse (skip_zeros (reverse (le_bytes total_bytes n)))

unfoldable pub uint_of : ℕ → ℕ → Bytes → Result BytesreprError (ℕ × Bytes)
unfolding from_le safe_split_at
uint_of total_bytes num_bytes rem =
    if ltb total_bytes num_bytes
    then err formatting_error
    else (safe_split_at rem num_bytes >>= λ (value, rem'). ok (from_le value, rem'))

-- `U128`, `U256` and `U512`, of 16, 32 and 64 bytes
unfoldable pub uint_codec : ℕ → Codec ℕ
unfolding trimmed first_byte uint_of
uint_codec total_bytes = record {
  to_bytes = λ n. ok (length (trimmed total_bytes n) ∷ trimmed total_bytes n);
  from_bytes = λ bytes. first_byte bytes >>= λ (num_bytes, rem). uint_of total_bytes num_bytes rem;
}
