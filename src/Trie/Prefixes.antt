-- ===== src/Trie/Prefixes.antt =====
-- `common_prefix` and slices of paths, as execution-engine/engine-storage/src/trie_store/operations/mod.rs
-- uses them to split a path.
use casper_labs.Base.{
  ℕ, ◌+◌, ◌≤◌, ◌<◌, All, ◌≡◌, refl, sym, ap, ◌∙◌, false, Bool-cases, [], ◌∷◌, ◌++◌, append_assoc,
  append-nil, inl, inr, length, length-append, Result, ok, err, ◌==◌, ==_iff, arith,
}
use mathlib.Core.Path.{subst}
use casper_labs.Bytes.{Bytes, Codec, take, drop}
use casper_labs.Bytes.Laws.{RoundTrips, take-append, drop-append}
use casper_labs.Trie.Operations.{byte_at, tail_from}
use casper_labs.Trie.Operations.Paths.{common_prefix, bytes_eq}
use casper_labs.Trie.Reading.{bytes_eq_refl}

pub common_prefix_self : (q x : Bytes) → common_prefix (q ++ x) q ≡ q
unfolding common_prefix
common_prefix_self [] [] = refl
common_prefix_self [] (b ∷ x) = refl
common_prefix_self (a ∷ q) x = ground (arith, common_prefix_self q x)

pub common_prefix-append :
    (q x y : Bytes) → common_prefix (q ++ x) (q ++ y) ≡ q ++ common_prefix x y
unfolding common_prefix
common_prefix-append [] x y = refl
common_prefix-append (a ∷ q) x y = ground (arith, common_prefix-append q x y)

pub byte_at-append :
    {E : Type 0} (q : Bytes) (a : ℕ) (x : Bytes) → byte_at {E = E} (q ++ a ∷ x) (length q) ≡ ok a
byte_at-append [] a x = refl
byte_at-append (b ∷ q) a x = byte_at-append q a x

pub tail_from-append : {E : Type 0} (q x : Bytes) → tail_from {E = E} (length q) (q ++ x) ≡ ok x
tail_from-append q x = ground (arith, length-append q x, drop-append q x)

-- Two paths part at a byte behind what they share.
pub record Parted (x y : Bytes) : Type 0 where
  pub shared : Bytes
  pub left : ℕ
  pub left_rest : Bytes
  pub right : ℕ
  pub right_rest : Bytes
  pub same : common_prefix x y ≡ shared
  pub x_is : x ≡ shared ++ left ∷ left_rest
  pub y_is : y ≡ shared ++ right ∷ right_rest
  pub differ : (left == right) ≡ false

-- One is not the start of the other.
abbrev pub NotPrefix : Bytes → Bytes → Type 0
NotPrefix x y = (z : Bytes) → y ≡ x ++ z → ⊥

pub parted : (x y : Bytes) → NotPrefix x y → NotPrefix y x → Parted x y
unfolding common_prefix
parted [] y n m = absurd (n y refl)
parted (a ∷ x) [] n m = absurd (m (a ∷ x) refl)
parted (a ∷ x) (b ∷ y) n m = elim (Bool-cases (a == b)) [
  | inl here ↦
      let at : a ≡ b = (==_iff a b).0 here in
      let p =
        parted x y (λ z e. n z (ap (λ w. b ∷ w) e ∙ ap (λ w. w ∷ (x ++ z)) (sym at)))
          (λ z e. m z (ap (λ w. a ∷ w) e ∙ ap (λ w. w ∷ (y ++ z)) at)) in
      record {
        shared = a ∷ p.shared;
        left = p.left;
        left_rest = p.left_rest;
        right = p.right;
        right_rest = p.right_rest;
        same = ground (arith, p.same);
        x_is = ap (λ w. a ∷ w) p.x_is;
        y_is = ap (λ w. w ∷ y) (sym at) ∙ ap (λ w. a ∷ w) p.y_is;
        differ = p.differ;
      }
  | inr there ↦ record {
    shared = [];
    left = a;
    left_rest = x;
    right = b;
    right_rest = y;
    same = ground arith;
    x_is = refl;
    y_is = refl;
    differ = there;
  }
]

pub append_cancel : (q x y : Bytes) → q ++ x ≡ q ++ y → x ≡ y
append_cancel q x y e = sym (drop-append q x) ∙ ap (drop (length q)) e ∙ drop-append q y

pub ok_same : {E A : Type 0} (m : Result E A) {a b : A} → m ≡ ok a → m ≡ ok b → a ≡ b
ok_same m {a} e e' = ap (λ n. elim n [ ok x ↦ x | err _ ↦ a ]) (sym e ∙ e')

-- The bytes of one value are not the start of those of another.
pub RoundTrips-NotPrefix :
    {A : Type 0} (c : Codec A) (Valid : A → Type 0) (a b : A) (x y : Bytes)
    → RoundTrips c Valid
    → Valid a
    → Valid b
    → (a ≡ b → ⊥)
    → c.to_bytes a ≡ ok x
    → c.to_bytes b ≡ ok y
    → NotPrefix x y
RoundTrips-NotPrefix c Valid a b x y trips valid valid' distinct e e' z at =
    let same =
      ok_same (c.from_bytes y) (ap c.from_bytes at ∙ trips a x z valid e)
        (ap c.from_bytes (sym (append-nil y)) ∙ trips b y [] valid' e') in
    distinct (ap (λ p. p.0) same)

pub NotPrefix-cancel : (q x y : Bytes) → NotPrefix (q ++ x) (q ++ y) → NotPrefix x y
NotPrefix-cancel q x y n z e = n z (ap (λ w. q ++ w) e ∙ sym (append_assoc q x z))

pub tail_from-behind :
    {E : Type 0} (q : Bytes) (a : ℕ) (x : Bytes)
    → tail_from {E = E} (length q + 1) (q ++ a ∷ x) ≡ ok x
tail_from-behind {E} q a x =
    let n : length (q ++ a ∷ []) ≡ length q + 1 = length-append q (a ∷ []) in
    rw (sym n, ← append_assoc q (a ∷ []) x) (tail_from-append {E = E} (q ++ a ∷ []) x)

-- A path that an affix ends early parts from it.
pub Parted-affix :
    (x affix : Bytes)
    → length affix ≤ length x
    → bytes_eq (take (length affix) x) affix ≡ false
    → Parted x affix
Parted-affix x affix le e =
    let off : (z : Bytes) → x ≡ affix ++ z → ⊥ = λ z at.
      absurd (
        ground
          (arith, e, ap (take (length affix)) at ∙ take-append affix z, bytes_eq_refl affix)) in
    parted x affix
      (λ z at.
        elim z as (λ w. affix ≡ x ++ w → ⊥) [
          | [] ↦ λ at'. off [] (sym (append-nil x) ∙ sym at' ∙ sym (append-nil affix))
          | b ∷ w ↦ λ at'. absurd (omega (arith, le, ap length at', length-append x (b ∷ w)))
        ]
          at)
      off

pub two_apart : (q s : Bytes) (a : ℕ) (r : Bytes) → q ++ (s ++ a ∷ r) ≡ ((q ++ s) ++ a ∷ []) ++ r
two_apart q s a r = sym (append_assoc q s (a ∷ r)) ∙ sym (append_assoc (q ++ s) (a ∷ []) r)

All-start : (s r : Bytes) → All (λ b. b < 256) (s ++ r) → All (λ b. b < 256) s
All-start [] r h = tt
All-start (b ∷ s) r (h, rest) = (h, All-start s r rest)

All-end : (q s : Bytes) → All (λ b. b < 256) (q ++ s) → All (λ b. b < 256) s
All-end [] s h = h
All-end (b ∷ q) s (_, rest) = All-end q s rest

pub All-shared : (q x s r : Bytes) → All (λ b. b < 256) (q ++ x) → x ≡ s ++ r → All (λ b. b < 256) s
All-shared q x s r h e = All-start s r (subst (All (λ b. b < 256)) e (All-end q x h))

pub All-behind :
    (x s : Bytes) (a : ℕ) (r : Bytes) → All (λ b. b < 256) x → x ≡ s ++ a ∷ r → All (λ b. b < 256) r
All-behind x s a r h e = (All-end s (a ∷ r) (subst (All (λ b. b < 256)) e h)).1
