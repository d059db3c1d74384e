-- ===== src/Values/Numbers.antt =====
-- The integral types of execution-engine/types/src/cl_type.rs and the conversions between them, as
-- in execution-engine/types/src/uint.rs and, between the language's own types, by `as`. A signed
-- number stands here as its bits in two's complement.
use casper_labs.Base.{ℕ, ◌+◌, ◌-◌, ◌%◌, ◌^◌, Bool, true, false, ltb, if◌then◌else◌}

pub data NumType : Type 0 where
  i32 i64 u8 u32 u64 u128 u256 u512 : NumType

abbrev pub bits : NumType → ℕ
bits i32 = 32
bits i64 = 64
bits u8 = 8
bits u32 = 32
bits u64 = 64
bits u128 = 128
bits u256 = 256
bits u512 = 512

abbrev pub modulus : NumType → ℕ
modulus t = 2 ^ bits t

unfoldable pub wrapping_add : NumType → ℕ → ℕ → ℕ
wrapping_add t x y = (x + y) % modulus t

unfoldable pub wrapping_sub : NumType → ℕ → ℕ → ℕ
wrapping_sub t x y = (x + modulus t - y) % modulus t

abbrev pub is_uint : NumType → Bool
is_uint u128 = true
is_uint u256 = true
is_uint u512 = true
is_uint _ = false

-- `impl AsPrimitive<$type> for i32`
unfoldable pub i32_as_uint : NumType → ℕ → ℕ
unfolding wrapping_sub
i32_as_uint t x = if ltb x (2 ^ 31) then x else wrapping_sub t 0 (wrapping_sub u32 0 x)

-- `x as t` in the language: the sign is extended, or the upper bits are dropped.
unfoldable pub i32_as_primitive : NumType → ℕ → ℕ
i32_as_primitive t x = (if ltb x (2 ^ 31) then x else x + (2 ^ 512 - 2 ^ 32)) % modulus t

unfoldable pub i32_as : ℕ → NumType → ℕ
unfolding i32_as_uint i32_as_primitive
i32_as x t = if is_uint t then i32_as_uint t x else i32_as_primitive t x

-- From an unsigned type, the upper bits are dropped, or the number stays as it is.
unfoldable pub uint_as : ℕ → NumType → ℕ
uint_as x t = x % modulus t
