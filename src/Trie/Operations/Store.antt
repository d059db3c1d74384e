-- ===== src/Trie/Operations/Store.antt =====
-- The trie store, and slices of paths, as
-- execution-engine/engine-storage/src/trie_store/operations/mod.rs uses them.
use casper_labs.Base.{
  ℕ, zero, suc, Bool, Option, none, some, [], ◌∷◌, length, Result, ok, err, map_err, ◌>>=◌, ltb,
  if◌then◌else◌,
}
use casper_labs.Values.{BytesreprError}
use casper_labs.Bytes.{Bytes, Codec, take, drop}
use casper_labs.Trie.{Pointer, pointer_hash, Trie}

-- What the trie is made of: the encodings of keys and values, their equalities, and the hash of bytes.
pub record Elements (K V : Type 0) : Type 0 where
  pub key : Codec K
  pub value : Codec V
  pub key_eq : K → K → Bool
  pub value_eq : V → V → Bool
  pub blake2b : Bytes → ℕ

-- The trait `TrieStore`, over a transaction `S`
pub record TrieStore (K V S E : Type 0) : Type 0 where
  pub get : ℕ → S → Result E (Option (Trie K V))
  pub put : ℕ → Trie K V → S → Result E S
  pub from_bytesrepr : BytesreprError → E

-- An error is returned, or the code panics; the last is no outcome of the code, but of a loop in it that
-- has made more rounds than the path has bytes.
pub data Fault (E : Type 0) : Type 0 where
  failed : E → Fault E
  panicked out_of_fuel : Fault E

abbrev pub Run : Type 0 → Type 0 → Type 0
Run E A = Result (Fault E) A

abbrev pub expect : {E A : Type 0} → Option A → Run E A
expect none = err panicked
expect (some a) = ok a

-- `&path[depth..depth + n]`, and what is behind it
unfoldable pub slice : {E : Type 0} → ℕ → Bytes → Run E (Bytes × Bytes)
slice n path = if ltb (length path) n then err panicked else ok (take n path, drop n path)

-- `affix[n..]`, and an index
abbrev pub tail_from : {E : Type 0} → ℕ → Bytes → Run E Bytes
tail_from n bytes = if ltb (length bytes) n then err panicked else ok (drop n bytes)

abbrev pub byte_at : {E : Type 0} → Bytes → ℕ → Run E ℕ
byte_at [] n = err panicked
byte_at (b ∷ bytes) zero = ok b
byte_at (b ∷ bytes) (suc n) = byte_at bytes n

module _ {K V S E : Type 0} (types : Elements K V) (store : TrieStore K V S E) where
  abbrev pub encoded : {A : Type 0} → Result BytesreprError A → Run E A
  encoded m = map_err (λ e. failed (store.from_bytesrepr e)) m

  -- `store.get(txn, pointer.hash())?`, with the panic for an element that is missing
  unfoldable pub follow : Pointer → S → Run E (Trie K V)
  follow pointer s = map_err failed (store.get (pointer_hash pointer) s) >>= λ next. expect next
