-- ===== src/Bytes/Integers.antt =====
-- Numbers, byte arrays and big numbers, encoded as in execution-engine/types/src/{bytesrepr,uint}.rs.
use casper_labs.Base.{
  ℕ, zero, suc, ◌/◌, ◌^◌, ◌≤◌, ◌<◌, ◌≡◌, refl, sym, ap, ◌∙◌, true, false, Bool-cases, inl, inr, [],
  ◌∷◌, ◌++◌, length, length-append, ok, ◌==◌, ==_iff, ⊤, arith,
}
use mathlib.Core.List.{reverse, reverse-cons, reverse-reverse}
use native.Mathlib.Nat.{pow-suc, pow-zero}
use casper_labs.Bytes.{Bytes}
use casper_labs.Bytes.Laws.{RoundTrips, safe_split_at-append}
use casper_labs.Bytes.Numbers.{
  le_bytes, from_le, bool_codec, u8_codec, fixed_codec, array_codec, skip_zeros, trimmed, uint_of,
  uint_codec,
}

length-le_bytes : (k n : ℕ) → length (le_bytes k n) ≡ k
unfolding le_bytes
length-le_bytes zero n = refl
length-le_bytes (suc k) n = ap suc (length-le_bytes k (n / 256))

from_le-le_bytes : (k n : ℕ) → n < 256 ^ k → from_le (le_bytes k n) ≡ n
unfolding from_le le_bytes
from_le-le_bytes zero n h = omega (arith, pow-zero 256)
from_le-le_bytes (suc k) n h =
    omega (arith, pow-suc 256 k, from_le-le_bytes k (n / 256) (omega (arith, pow-suc 256 k)))

length-reverse : (xs : Bytes) → length (reverse xs) ≡ length xs
length-reverse [] = refl
length-reverse (x ∷ xs) =
    ap length (reverse-cons x xs)
    ∙ omega (arith, length-append (reverse xs) (x ∷ []), length-reverse xs)

pub bool_codec-RoundTrips : RoundTrips bool_codec (λ _. ⊤)
unfolding bool_codec
bool_codec-RoundTrips true bytes rest v e = ground arith
bool_codec-RoundTrips false bytes rest v e = ground arith

pub u8_codec-RoundTrips : RoundTrips u8_codec (λ _. ⊤)
unfolding u8_codec
u8_codec-RoundTrips n bytes rest v e = ground arith

pub fixed_codec-RoundTrips : (k : ℕ) → RoundTrips (fixed_codec k) (λ n. n < 256 ^ k)
unfolding fixed_codec
fixed_codec-RoundTrips k n bytes rest v e = ground (
  arith,
  safe_split_at-append (le_bytes k n) rest k (length-le_bytes k n),
  from_le-le_bytes k n v,
)

pub array_codec-RoundTrips : (len : ℕ) → RoundTrips (array_codec len) (λ n. n < 256 ^ len)
unfolding array_codec
array_codec-RoundTrips len n bytes rest v e = ground (
  arith,
  safe_split_at-append (reverse (le_bytes len n)) rest len
      (length-reverse (le_bytes len n) ∙ length-le_bytes len n),
  reverse-reverse (le_bytes len n),
  from_le-le_bytes len n v,
)

from_le-append_zero : (xs : Bytes) → from_le (xs ++ 0 ∷ []) ≡ from_le xs
unfolding from_le
from_le-append_zero [] = refl
from_le-append_zero (x ∷ xs) = omega (arith, from_le-append_zero xs)

-- Leading zeros say nothing.
from_le-skip_zeros : (xs : Bytes) → from_le (reverse (skip_zeros xs)) ≡ from_le (reverse xs)
unfolding skip_zeros
from_le-skip_zeros [] = refl
from_le-skip_zeros (x ∷ xs) = elim (Bool-cases (x == 0)) [
  | inl zero_byte ↦ rw zero_byte (
      from_le-skip_zeros xs
      ∙ sym (
          ap from_le (reverse-cons x xs)
          ∙ ap (λ b. from_le (reverse xs ++ b ∷ [])) ((==_iff x 0).0 zero_byte)
          ∙ from_le-append_zero (reverse xs)))
  | inr other ↦ rw other refl
]

from_le-trimmed : (k n : ℕ) → n < 256 ^ k → from_le (trimmed k n) ≡ n
unfolding trimmed
from_le-trimmed k n h =
    from_le-skip_zeros (reverse (le_bytes k n))
    ∙ ap from_le (reverse-reverse (le_bytes k n))
    ∙ from_le-le_bytes k n h

length-skip_zeros : (xs : Bytes) → length (skip_zeros xs) ≤ length xs
unfolding skip_zeros
length-skip_zeros [] = omega arith
length-skip_zeros (x ∷ xs) = ground (arith, length-skip_zeros xs)

pub length-trimmed : (k n : ℕ) → length (trimmed k n) ≤ k
unfolding trimmed
length-trimmed k n = omega (
  arith,
  length-reverse (skip_zeros (reverse (le_bytes k n))),
  length-skip_zeros (reverse (le_bytes k n)),
  length-reverse (le_bytes k n),
  length-le_bytes k n,
)

pub uint_codec-RoundTrips : (k : ℕ) → RoundTrips (uint_codec k) (λ n. n < 256 ^ k)
unfolding uint_codec uint_of
uint_codec-RoundTrips k n bytes rest v e = ground (
  arith,
  length-trimmed k n,
  safe_split_at-append (trimmed k n) rest (length (trimmed k n)) refl,
  from_le-trimmed k n v,
)

pub array_codec-length :
    (len n : ℕ) → (bytes : Bytes) × ((array_codec len).to_bytes n ≡ ok bytes) × (length bytes ≡ len)
unfolding array_codec
array_codec-length len n =
    (reverse (le_bytes len n), refl, length-reverse (le_bytes len n) ∙ length-le_bytes len n)
