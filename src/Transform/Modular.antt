-- ===== src/Transform/Modular.antt =====
-- Additions that wrap around at different widths, for the conversions of
-- execution-engine/types/src/uint.rs.
use native.Mathlib.Nat.{
  add-zero, add-suc, pow-zero, pow-suc, dvd-mul_right, mul_assoc, mod-mod_of_dvd, mod-add-mod,
  add-mod-mod,
}
use Prim.Native.Nat.{◌∣◌}
use mathlib.Core.Path.{subst}
use casper_labs.Base.{ℕ, ◌+◌, ◌-◌, ◌*◌, ◌%◌, ◌^◌, ◌≤◌, ◌<◌, ◌≡◌, zero, suc, sym, ap, ◌∙◌, arith}
use casper_labs.Values.{NumType, i32, i64, u8, u32, u64, u128, u256, u512, modulus, i32_as}

-- An `i32` as a number of 512 bits in two's complement.
abbrev pub extended : ℕ → ℕ
extended x = (x + 2 ^ 31) % 2 ^ 32 + (2 ^ 512 - 2 ^ 31)

pub i32_as-eq-mod : (x : ℕ) (t : NumType) → x < 2 ^ 32 → i32_as x t ≡ extended x % modulus t
unfolding i32_as
i32_as-eq-mod x i32 h = ground arith
i32_as-eq-mod x i64 h = ground arith
i32_as-eq-mod x u8 h = ground arith
i32_as-eq-mod x u32 h = ground arith
i32_as-eq-mod x u64 h = ground arith
i32_as-eq-mod x u128 h = ground arith
i32_as-eq-mod x u256 h = ground arith
i32_as-eq-mod x u512 h = ground arith

two_pow-add : (a b : ℕ) → 2 ^ (a + b) ≡ 2 ^ a * 2 ^ b
two_pow-add a zero = rw (add-zero a, pow-zero 2) (omega arith)
two_pow-add a (suc b) =
    rw (add-suc a b, pow-suc 2 (a + b), pow-suc 2 b, two_pow-add a b) (mul_assoc (2 ^ a) (2 ^ b) 2)

-- Dropping the upper bits in two steps.
pub mod-mod_pow : (a w n : ℕ) → a ≤ w → n % 2 ^ w % 2 ^ a ≡ n % 2 ^ a
mod-mod_pow a w n h = mod-mod_of_dvd (2 ^ a) n (
    subst (λ m. 2 ^ a ∣ m) (sym (two_pow-add a (w - a)) ∙ ap (λ k. 2 ^ k) (omega (arith, h)))
      (dvd-mul_right (2 ^ a) (2 ^ (w - a))))

-- Two additions that wrap around make one, of any number that agrees with the sum of the two.
pub add-add-mod : (m x p q c : ℕ) → c % m ≡ (p + q) % m → ((x + p) % m + q) % m ≡ (x + c) % m
add-add-mod m x p q c e =
    mod-add-mod (x + p) m q
    ∙ ap (λ n. n % m) (omega arith)
    ∙ sym (add-mod-mod x (p + q) m)
    ∙ ap (λ n. (x + n) % m) (sym e)
    ∙ add-mod-mod x c m
