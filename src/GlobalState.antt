-- ===== src/GlobalState.antt =====
-- Committing effects to a global state: execution-engine/engine-storage/src/global_state/mod.rs. The
-- trie that the state is kept in is given by its operations; logging is left out.
pub mod Commit
mod Tests
use casper_labs.Base.{
  Bool, true, false, Option, none, some, [], ◌∷◌, Result, ok, err, map_err, ◌>>=◌,
}
use casper_labs.Types.{Key}
use casper_labs.KeyMap.{KeyMap}
use casper_labs.Values.{BytesreprError, StoredValue}
use casper_labs.Transform.{Transform, Error, write, apply}

-- `S` is the type of the states, each with its root; `E` that of the errors of the storage.
pub record TrieStore (S V E : Type 0) : Type 0 where
  pub has_root : S → Result E Bool
  pub read_trie : Key → S → Result E (Option (StoredValue V))
  pub write_trie : Key → StoredValue V → S → Result E S

pub data CommitResult (S : Type 0) : Type 0 where
  root_not_found : CommitResult S
  success : S → CommitResult S
  key_not_found : Key → CommitResult S
  type_mismatch : CommitResult S
  serialization : BytesreprError → CommitResult S

module _ {S : Type 0} where
  -- `impl From<transform::Error> for CommitResult`
  abbrev pub commit_error : Error → CommitResult S
  commit_error (Error.serialization e) = serialization e
  commit_error Error.type_mismatch = type_mismatch

  module _ {V : Type 0} where
    -- The value that an effect leaves under a key, from the one it finds there.
    unfoldable pub new_value :
        Key → Option (StoredValue V) → Transform V → Result (CommitResult S) (StoredValue V)
    unfolding apply
    new_value key none (write value) = ok value
    new_value key none _ = err (key_not_found key)
    new_value key (some current_value) transform =
        map_err commit_error (apply transform current_value)

module _ {S V E : Type 0} (store : TrieStore S V E) where
  open store use {has_root, read_trie, write_trie}

  -- What follows the new value of a key: an early return, or a write and the other effects.
  abbrev pub store_value :
      Key
      → S
      → (S → Result E (CommitResult S))
      → Result (CommitResult S) (StoredValue V)
      → Result E (CommitResult S)
  store_value key s others (err failure) = ok failure
  store_value key s others (ok value) = write_trie key value s >>= others

  -- The loop of `commit` over the effects.
  unfoldable pub commit_effects : KeyMap (Transform V) → S → Result E (CommitResult S)
  unfolding new_value
  commit_effects [] s = ok (success s)
  commit_effects ((key, transform) ∷ effects) s =
      read_trie key s
      >>= (λ current. store_value key s (commit_effects effects) (new_value key current transform))

  unfoldable pub commit : KeyMap (Transform V) → S → Result E (CommitResult S)
  unfolding commit_effects
  commit effects s =
      has_root s
      >>= (λ found. elim found [ false ↦ ok root_not_found | true ↦ commit_effects effects s ])
