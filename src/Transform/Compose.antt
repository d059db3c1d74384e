-- ===== src/Transform/Compose.antt =====
-- The sum of two transforms of execution-engine/engine-shared/src/transform.rs, where both add a
-- number.
use native.Mathlib.Nat.{add-mod-mod}
use casper_labs.Base.{ℕ, ◌+◌, ◌%◌, ◌^◌, ◌≤◌, ◌<◌, ◌≡◌, refl, sym, ap, ◌∙◌, ok, arith}
use casper_labs.Values.{NumType, bits, modulus, number, cl_value}
use casper_labs.Transform.{
  Transform, add_int32, add_uint64, add_uint128, add_uint256, add_uint512, failure, type_mismatch,
  apply, combine,
}
use casper_labs.Transform.Modular.{extended, i32_as-eq-mod, mod-mod_pow, add-add-mod}

module _ {V : Type 0} where
  -- The transforms that add a number: its width in bits, and its value in 512 bits.
  pub data Adds : Transform V → ℕ → ℕ → Type 0 where
    int32 : (n : ℕ) → n < 2 ^ 32 → Adds (add_int32 n) 32 (extended n)
    uint64 : (n : ℕ) → n < 2 ^ 64 → Adds (add_uint64 n) 64 n
    uint128 : (n : ℕ) → n < 2 ^ 128 → Adds (add_uint128 n) 128 n
    uint256 : (n : ℕ) → n < 2 ^ 256 → Adds (add_uint256 n) 256 n
    uint512 : (n : ℕ) → n < 2 ^ 512 → Adds (add_uint512 n) 512 n

  pub apply-number :
      {a : Transform V} {w p : ℕ}
      → Adds a w p
      → (t : NumType) (x : ℕ)
      → apply a (cl_value (number t x)) ≡ ok (cl_value (number t ((x + p) % modulus t)))
  unfolding apply
  apply-number (int32 n r) t x =
      ap (λ k. ok (cl_value (number t k)))
        (ap (λ k. (x + k) % modulus t) (i32_as-eq-mod n t r)
          ∙ add-mod-mod x (extended n) (modulus t))
  apply-number (uint64 n r) t x = ap (λ k. ok (cl_value (number t k))) (add-mod-mod x n (modulus t))
  apply-number (uint128 n r) t x =
      ap (λ k. ok (cl_value (number t k))) (add-mod-mod x n (modulus t))
  apply-number (uint256 n r) t x =
      ap (λ k. ok (cl_value (number t k))) (add-mod-mod x n (modulus t))
  apply-number (uint512 n r) t x =
      ap (λ k. ok (cl_value (number t k))) (add-mod-mod x n (modulus t))

  -- A transform that adds the sum of two numbers, up to its own width.
  pub data AddsSum (p q : ℕ) (c : Transform V) : Type 0 where
    sum_of : (w r : ℕ) → Adds c w r → r % 2 ^ w ≡ (p + q) % 2 ^ w → AddsSum p q c
    mismatch : c ≡ failure type_mismatch → AddsSum p q c

  pub combine-AddsSum :
      {a b : Transform V} {w w' p q : ℕ} → Adds a w p → Adds b w' q → AddsSum p q (combine a b)
  unfolding combine
  combine-AddsSum (int32 i x) (int32 j y) = sum_of 32 _ (int32 _ (omega arith)) (ground arith)
  combine-AddsSum (int32 i x) (uint64 j y) = sum_of 64 _ (uint64 _ (omega arith)) (ground arith)
  combine-AddsSum (int32 i x) (uint128 j y) = sum_of 128 _ (uint128 _ (omega arith)) (ground arith)
  combine-AddsSum (int32 i x) (uint256 j y) = sum_of 256 _ (uint256 _ (omega arith)) (ground arith)
  combine-AddsSum (int32 i x) (uint512 j y) = sum_of 512 _ (uint512 _ (omega arith)) (ground arith)
  combine-AddsSum (uint64 i x) (int32 j y) = sum_of 32 _ (int32 _ (omega arith)) (ground arith)
  combine-AddsSum (uint64 i x) (uint64 j y) = sum_of 64 _ (uint64 _ (omega arith)) (ground arith)
  combine-AddsSum (uint64 i x) (uint128 j y) = sum_of 128 _ (uint128 _ (omega arith)) (ground arith)
  combine-AddsSum (uint64 i x) (uint256 j y) = sum_of 256 _ (uint256 _ (omega arith)) (ground arith)
  combine-AddsSum (uint64 i x) (uint512 j y) = sum_of 512 _ (uint512 _ (omega arith)) (ground arith)
  combine-AddsSum (uint128 i x) (int32 j y) = sum_of 128 _ (uint128 _ (omega arith)) (ground arith)
  combine-AddsSum (uint128 i x) (uint64 j y) = sum_of 128 _ (uint128 _ (omega arith)) (ground arith)
  combine-AddsSum (uint128 i x) (uint128 j y) =
      sum_of 128 _ (uint128 _ (omega arith)) (ground arith)
  combine-AddsSum (uint128 i x) (uint256 j y) = mismatch refl
  combine-AddsSum (uint128 i x) (uint512 j y) = mismatch refl
  combine-AddsSum (uint256 i x) (int32 j y) = sum_of 256 _ (uint256 _ (omega arith)) (ground arith)
  combine-AddsSum (uint256 i x) (uint64 j y) = sum_of 256 _ (uint256 _ (omega arith)) (ground arith)
  combine-AddsSum (uint256 i x) (uint128 j y) = mismatch refl
  combine-AddsSum (uint256 i x) (uint256 j y) =
      sum_of 256 _ (uint256 _ (omega arith)) (ground arith)
  combine-AddsSum (uint256 i x) (uint512 j y) = mismatch refl
  combine-AddsSum (uint512 i x) (int32 j y) = sum_of 512 _ (uint512 _ (omega arith)) (ground arith)
  combine-AddsSum (uint512 i x) (uint64 j y) = sum_of 512 _ (uint512 _ (omega arith)) (ground arith)
  combine-AddsSum (uint512 i x) (uint128 j y) = mismatch refl
  combine-AddsSum (uint512 i x) (uint256 j y) = mismatch refl
  combine-AddsSum (uint512 i x) (uint512 j y) =
      sum_of 512 _ (uint512 _ (omega arith)) (ground arith)

  -- On a number that is no wider than what the sum adds, the sum of two additions does what the two
  -- do one after the other.
  pub AddsSum-apply :
      {c : Transform V} {w r : ℕ} (p q : ℕ)
      → Adds c w r
      → r % 2 ^ w ≡ (p + q) % 2 ^ w
      → (t : NumType) (x : ℕ) → bits t ≤ w
      → apply c (cl_value (number t x))
        ≡ ok (cl_value (number t (((x + p) % modulus t + q) % modulus t)))
  AddsSum-apply {c} {w} {r} p q d e t x h =
      apply-number d t x
      ∙ ap (λ k. ok (cl_value (number t k)))
          (sym (
            add-add-mod (modulus t) x p q r (
              sym (mod-mod_pow (bits t) w r h)
              ∙ ap (λ k. k % modulus t) e
              ∙ mod-mod_pow (bits t) w (p + q) h)))
