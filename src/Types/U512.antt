-- ===== src/Types/U512.antt =====
-- Arithmetic of the `U512` of execution-engine/types/src/uint.rs, which the uint crate generates:
-- a 512-bit number whose `+`, `-` and `*` panic where the result does not fit.
use casper_labs.Base.{ℕ, ◌+◌, ◌-◌, ◌*◌, ◌^◌, min, Option, none, some, leb, if◌then◌else◌}

abbrev pub u512_max : ℕ
u512_max = 2 ^ 512 - 1

-- `none` is the panic.
abbrev pub in_u512 : ℕ → Option ℕ
in_u512 n = if leb n u512_max then some n else none

abbrev pub checked_add_u512 : ℕ → ℕ → Option ℕ
checked_add_u512 a b = in_u512 (a + b)

abbrev pub checked_mul_u512 : ℕ → ℕ → Option ℕ
checked_mul_u512 a b = in_u512 (a * b)

abbrev pub saturating_add_u512 : ℕ → ℕ → ℕ
saturating_add_u512 a b = min u512_max (a + b)

-- `saturating_sub` stops at zero, as `-` on the naturals does.
abbrev pub saturating_sub_u512 : ℕ → ℕ → ℕ
saturating_sub_u512 a b = a - b
