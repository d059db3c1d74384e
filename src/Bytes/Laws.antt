-- ===== src/Bytes/Laws.antt =====
-- What an encoding of execution-engine/types/src/bytesrepr.rs is to be for its readers, and how that
-- passes from the parts of a value to the whole.
use casper_labs.Base.{
  ℕ, zero, suc, ◌≡◌, refl, sym, ap, [], ◌∷◌, ◌++◌, length, length-append, ok, arith,
}
use casper_labs.Bytes.{Bytes, Codec, take, drop, safe_split_at}

-- Bytes that a value was encoded to are read back as that value, whatever follows them.
abbrev pub RoundTrips : {A : Type 0} → Codec A → (A → Type 0) → Type 0
RoundTrips {A} c Valid =
    (a : A) (bytes rest : Bytes)
    → Valid a
    → c.to_bytes a ≡ ok bytes
    → c.from_bytes (bytes ++ rest) ≡ ok (a, rest)

pub take-append : (xs ys : Bytes) → take (length xs) (xs ++ ys) ≡ xs
take-append [] ys = refl
take-append (x ∷ xs) ys = ap (λ l. x ∷ l) (take-append xs ys)

pub drop-append : (xs ys : Bytes) → drop (length xs) (xs ++ ys) ≡ ys
drop-append [] ys = refl
drop-append (x ∷ xs) ys = drop-append xs ys

pub take-drop : (n : ℕ) (xs : Bytes) → take n xs ++ drop n xs ≡ xs
take-drop zero xs = refl
take-drop (suc n) [] = refl
take-drop (suc n) (x ∷ xs) = ap (λ l. x ∷ l) (take-drop n xs)

pub safe_split_at-append :
    (xs ys : Bytes) (n : ℕ) → length xs ≡ n → safe_split_at (xs ++ ys) n ≡ ok (xs, ys)
unfolding safe_split_at
safe_split_at-append xs ys n e =
    rw (sym e) (ground (arith, length-append xs ys, take-append xs ys, drop-append xs ys))
