-- ===== src/Base/Int.antt =====
-- The signed integers of the source's `i32` and `i64`.
use Prim.Native.Nat.{ℕ, compare, Ordering}
use mathlib.Core.Bool.{Bool, true, false}

-- `negsuc n` is -(n + 1).
pub data ℤ : Type 0 where
  pos : ℕ → ℤ
  negsuc : ℕ → ℤ

abbrev nat_eq : ℕ → ℕ → Bool
nat_eq a b = elim (compare a b) [ Ordering.eq ↦ true | _ ↦ false ]

infix 50 ◌==ℤ◌
abbrev pub ◌==ℤ◌ : ℤ → ℤ → Bool
pos a ==ℤ pos b = nat_eq a b
negsuc a ==ℤ negsuc b = nat_eq a b
_ ==ℤ _ = false

abbrev nat_lt : ℕ → ℕ → Bool
nat_lt a b = elim (compare a b) [ Ordering.lt ↦ true | _ ↦ false ]

abbrev nat_le : ℕ → ℕ → Bool
nat_le a b = elim (compare a b) [ Ordering.gt ↦ false | _ ↦ true ]

infix 50 ◌<ℤ◌ ◌<=ℤ◌ ◌>ℤ◌ ◌>=ℤ◌
abbrev pub ◌<ℤ◌ : ℤ → ℤ → Bool
pos a <ℤ pos b = nat_lt a b
pos a <ℤ negsuc b = false
negsuc a <ℤ pos b = true
negsuc a <ℤ negsuc b = nat_lt b a

abbrev pub ◌<=ℤ◌ : ℤ → ℤ → Bool
pos a <=ℤ pos b = nat_le a b
pos a <=ℤ negsuc b = false
negsuc a <=ℤ pos b = true
negsuc a <=ℤ negsuc b = nat_le b a

abbrev pub ◌>ℤ◌ : ℤ → ℤ → Bool
a >ℤ b = b <ℤ a

abbrev pub ◌>=ℤ◌ : ℤ → ℤ → Bool
a >=ℤ b = b <=ℤ a
