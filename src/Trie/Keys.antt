-- ===== src/Trie/Keys.antt =====
-- `Key` of execution-engine/types/src/key.rs as the key of a trie.
use casper_labs.Base.{
  ℕ, zero, suc, ◌/◌, ◌≤◌, ◌<◌, ◌≡◌, refl, sym, ap, ◌∙◌, Bool, true, false, Bool-cases, Option, none,
  some, [], ◌∷◌, ◌++◌, inl, inr, length, length-append, ok, ◌>>=◌, >>=-ok, if◌then◌else◌, ◌==◌,
  ==_iff, All, arith,
}
use mathlib.Core.Path.{subst}
use mathlib.Core.List.{reverse, reverse-cons}
use casper_labs.Types.{AccessRights, URef, Key, account, hash, uref, local}
use casper_labs.KeyMap.{key_eq}
use casper_labs.KeyMap.Lookup.{key_eq→eq, key_eq_refl}
use casper_labs.Bytes.{Bytes, Codec}
use casper_labs.Bytes.Numbers.{le_bytes, array_codec, u8_codec}
use casper_labs.Bytes.Integers.{array_codec-length}
use casper_labs.Bytes.Containers.{option_codec}
use casper_labs.Bytes.Sequences.{Given}
use casper_labs.Bytes.Shared.{key_to_bytes, key_codec, uref_codec, access_rights_codec}
use casper_labs.Bytes.SharedLaws.{KeyInRange, URefInRange, key_codec-RoundTrips}
use casper_labs.Trie.Operations.{Elements}
use casper_labs.Trie.Shape.{IsElements}
use casper_labs.Trie.Prefixes.{NotPrefix, RoundTrips-NotPrefix, ok_same}
use casper_labs.Trie.Written.{Comparable}

abbrev pub IsByte : ℕ → Type 0
IsByte b = b < 256

All-append : (x y : Bytes) → All IsByte x → All IsByte y → All IsByte (x ++ y)
All-append [] y a b = b
All-append (i ∷ x) y (h, a) b = (h, All-append x y a b)

All-reverse : (x : Bytes) → All IsByte x → All IsByte (reverse x)
All-reverse [] a = tt
All-reverse (i ∷ x) (h, a) =
    rw (reverse-cons i x) (All-append (reverse x) (i ∷ []) (All-reverse x a) (h, tt))

le_bytes-All : (k n : ℕ) → All IsByte (le_bytes k n)
unfolding le_bytes
le_bytes-All zero n = tt
le_bytes-All (suc k) n = (omega arith, le_bytes-All k (n / 256))

-- Bytes of an array: they are bytes, and so many.
array_bytes :
    (len n : ℕ) (path : Bytes)
    → (array_codec len).to_bytes n ≡ ok path
    → All IsByte path × (length path ≡ len)
unfolding array_codec
array_bytes len n path e =
    let made = ok_same ((array_codec len).to_bytes n) refl e in
    let (path', e', size) = array_codec-length len n in
    (
      subst (All IsByte) made (All-reverse (le_bytes len n) (le_bytes-All len n)),
      ap length (ok_same ((array_codec len).to_bytes n) e e') ∙ size,
    )

-- Bytes of optional rights: one or two
rights_bytes :
    (r : Option AccessRights) (path : Bytes)
    → Given (λ n. n ≤ 7) r
    → (option_codec access_rights_codec).to_bytes r ≡ ok path
    → All IsByte path × (1 ≤ length path) × (length path ≤ 2)
unfolding option_codec access_rights_codec u8_codec
rights_bytes none path v e =
    subst (λ x. All IsByte x × (1 ≤ length x) × (length x ≤ 2))
      (ok_same ((option_codec access_rights_codec).to_bytes none) refl e)
      ((omega arith, tt), omega arith, omega arith)
rights_bytes (some r) path v e =
    subst (λ x. All IsByte x × (1 ≤ length x) × (length x ≤ 2))
      (ok_same ((option_codec access_rights_codec).to_bytes (some r)) refl e)
      ((omega arith, (omega (arith, v), tt)), omega arith, omega arith)

-- How many bytes there are at least behind the tag
abbrev least : ℕ → ℕ
least tag = if tag == 2 then 33 else 32

abbrev KeyPath : ℕ → Bytes → Type 0
KeyPath tag path =
    (x : Bytes) × (path ≡ tag ∷ x)
    × All IsByte path
    × (least tag ≤ length x)
    × (length x ≤ suc (least tag))

abbrev tag_of : Key → ℕ
tag_of (account _) = 0
tag_of (hash _) = 1
tag_of (uref _) = 2
tag_of (local _) = 3

array_path :
    (tag n : ℕ) (path : Bytes)
    → tag ≤ 3
    → (tag == 2) ≡ false
    → ((array_codec 32).to_bytes n >>= λ x. ok (tag ∷ x)) ≡ ok path
    → KeyPath tag path
array_path tag n path small other e =
    let (x, h, made) = >>=-ok ((array_codec 32).to_bytes n) (λ x. ok (tag ∷ x)) e in
    let (bytes, size) = array_bytes 32 n x h in
    let at : tag ∷ x ≡ path = ok_same (ok (tag ∷ x)) refl made in
    (
      x,
      sym at,
      subst (All IsByte) at (omega (arith, small), bytes),
      rw other (omega (arith, size)),
      rw other (omega (arith, size)),
    )

uref_bytes :
    (u : URef) (path : Bytes)
    → URefInRange u
    → uref_codec.to_bytes u ≡ ok path
    → All IsByte path × (33 ≤ length path) × (length path ≤ 34)
unfolding uref_codec
uref_bytes u path (v, w) e =
    let (x, h, e') = >>=-ok ((array_codec 32).to_bytes u.addr) _ e in
    let (y, k, e'') =
      >>=-ok ((option_codec access_rights_codec).to_bytes u.access_rights)
        (λ rights. ok (x ++ rights)) e' in
    let (bytes, size) = array_bytes 32 u.addr x h in
    let (bytes', low, high) = rights_bytes u.access_rights y w k in
    let at : x ++ y ≡ path = ok_same (ok (x ++ y)) refl e'' in
    subst (λ z. All IsByte z × (33 ≤ length z) × (length z ≤ 34)) at
      (
        All-append x y bytes bytes',
        omega (arith, length-append x y, size, low),
        omega (arith, length-append x y, size, high),
      )

uref_path :
    (u : URef) (path : Bytes)
    → URefInRange u
    → (uref_codec.to_bytes u >>= λ x. ok (2 ∷ x)) ≡ ok path
    → KeyPath 2 path
uref_path u path v e =
    let (x, h, made) = >>=-ok (uref_codec.to_bytes u) (λ x. ok (2 ∷ x)) e in
    let (bytes, low, high) = uref_bytes u x v h in
    let at : 2 ∷ x ≡ path = ok_same (ok (2 ∷ x)) refl made in
    (x, sym at, subst (All IsByte) at (omega arith, bytes), low, omega (arith, high))

key_path :
    (k : Key) (path : Bytes)
    → KeyInRange k
    → key_codec.to_bytes k ≡ ok path
    → KeyPath (tag_of k) path
unfolding key_codec key_to_bytes
key_path (account a) path v e = array_path 0 a path (omega arith) refl e
key_path (hash a) path v e = array_path 1 a path (omega arith) refl e
key_path (uref u) path v e = uref_path u path v e
key_path (local a) path v e = array_path 3 a path (omega arith) refl e

key_codec-Comparable :
    (j k : Key) (path path' : Bytes)
    → KeyInRange j
    → KeyInRange k
    → key_codec.to_bytes j ≡ ok path
    → key_codec.to_bytes k ≡ ok path'
    → Comparable path path'
key_codec-Comparable j k path path' v v' e e' =
    let (x, at, _, low, high) = key_path j path v e in
    let (x', at', _, low', high') = key_path k path' v' e' in
    elim (Bool-cases (tag_of j == tag_of k)) [
      | inl same ↦ inr (
          omega (
            arith,
            ap length at,
            ap length at',
            high,
            low',
            ap least ((==_iff (tag_of j) (tag_of k)).0 same),
          ))
      | inr differ ↦ inl (rw (at, at') differ)
    ]

-- The bytes of a key in range are not the start of those of another one, and where the first bytes of
-- both are the same, their lengths differ by one at most.
pub key_paths :
    (j k : Key) (path path' : Bytes)
    → KeyInRange j
    → KeyInRange k
    → (j ≡ k → ⊥)
    → key_codec.to_bytes j ≡ ok path
    → key_codec.to_bytes k ≡ ok path'
    → NotPrefix path path' × Comparable path path'
key_paths j k path path' v v' n e e' = (
  RoundTrips-NotPrefix key_codec KeyInRange j k path path' key_codec-RoundTrips v v' n e e',
  key_codec-Comparable j k path path' v v' e e',
)

module _ {V : Type 0} (value : Codec V) (value_eq : V → V → Bool) (blake2b : Bytes → ℕ) where
  -- The global state: values under keys
  abbrev pub key_elements : Elements Key V
  key_elements = record {
    key = key_codec;
    value = value;
    key_eq = key_eq;
    value_eq = value_eq;
    blake2b = blake2b;
  }

  pub key_elements-IsElements :
      ((a b : V) → value_eq a b ≡ true → a ≡ b) → IsElements key_elements KeyInRange
  key_elements-IsElements sound = record {
    keys_read = key_codec-RoundTrips;
    keys_bytes = λ k path v e. (key_path k path v e).2;
    key_eq_sound = key_eq→eq;
    key_eq_refl = key_eq_refl;
    value_eq_sound = sound;
  }
