-- ===== src/Types/Bits.antt =====
-- How sets of the flags of execution-engine/types/src/access_rights.rs contain each other.
use Prim.Native.Nat.{digits, bit_and, bit_and-bitwise}
use native.Mathlib.Nat.{le_refl}
use casper_labs.Base.{ℕ, zero, suc, ◌/◌, ◌≤◌, min, ◌≡◌, refl, sym, ap, ◌∙◌, arith}

abbrev common : ℕ → ℕ → ℕ → ℕ
common fuel a b = digits (λ b. zero) min fuel a b

common-zero : (fuel a : ℕ) → common fuel a 0 ≡ 0
common-zero zero a = refl
common-zero (suc n) zero = refl
common-zero (suc n) (suc a) = omega (arith, common-zero n (suc a / 2))

zero-common : (fuel b : ℕ) → common fuel 0 b ≡ 0
zero-common zero b = refl
zero-common (suc n) b = refl

common_none : (k a c : ℕ) → c ≡ 0 → common k a c ≡ c
common_none k a c e = ap (common k a) e ∙ common-zero k a ∙ sym e

common_trans :
    (n m k a b c : ℕ)
    → a ≤ n
    → b ≤ m
    → a ≤ k
    → common n a b ≡ b
    → common m b c ≡ c
    → common k a c ≡ c
common_trans n m k a zero c p q r ab zero_c = common_none k a c (sym zero_c ∙ zero-common m c)
common_trans n m k zero (suc b) c p q r ab bc = absurd (omega (arith, zero-common n (suc b)))
common_trans (suc n) (suc m) (suc k) (suc a) (suc b) c p q r ab bc = omega (
  arith,
  common_trans n m k (suc a / 2) (suc b / 2) (c / 2) (omega arith) (omega arith) (omega arith)
      (omega arith) (omega arith),
)
common_trans zero m k (suc a) (suc b) c p q r ab bc = absurd (omega arith)
common_trans (suc n) zero k (suc a) (suc b) c p q r ab bc = absurd (omega arith)
common_trans (suc n) (suc m) zero (suc a) (suc b) c p q r ab bc = absurd (omega arith)

-- `a & b == b` is an order.
pub bit_and_trans : (a b c : ℕ) → bit_and a b ≡ b → bit_and b c ≡ c → bit_and a c ≡ c
bit_and_trans a b c ab bc =
    bit_and-bitwise a c
    ∙ common_trans a b a a b c (le_refl a) (le_refl b) (le_refl a) (sym (bit_and-bitwise a b) ∙ ab)
        (sym (bit_and-bitwise b c) ∙ bc)
