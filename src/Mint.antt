-- ===== src/Mint.antt =====
-- The mint system contract: execution-engine/mint/src.
mod Error
pub mod Storage
pub mod Codes
pub mod Transfer
pub mod Store
mod Tests
unfoldable pub use Error.*
use casper_labs.Base.{
  ℕ, ◌-◌, Bool, not, ◌&&◌, ◌||◌, Option, none, some, ⊤, Result, ok, err, ltb, ◌==◌, if◌then◌else◌,
}
use casper_labs.Base
use casper_labs.Types.{Key, uref, URef, remove_access_rights, is_writeable, is_addable}
use Storage.{StorageProvider, RuntimeProvider}

abbrev pub system_account : ℕ
system_account = 0

-- `TryFrom::<Key>::try_from(key).map_err(|_| Error::InvalidAccessRights)`
abbrev pub balance_of_key : Key → Result MintError URef
balance_of_key (uref u) = ok u
balance_of_key _ = err invalid_access_rights

-- The reference that a local key gives, or the error for none.
abbrev pub require_balance : MintError → Result MintError (Option Key) → Result MintError URef
require_balance e (ok (some key)) = balance_of_key key
require_balance e (ok none) = err e
require_balance e (err x) = err x

abbrev pub require_value : MintError → Result MintError (Option ℕ) → Result MintError ℕ
require_value e (ok (some n)) = ok n
require_value e (ok none) = err e
require_value e (err x) = err x

module _ {S : Type 0} (r : RuntimeProvider S) (st : StorageProvider S) where
  open st use {new_balance_uref, new_purse_uref, write_local, read_local, read, write, add}

  -- The state after the call, and its result.
  unfoldable pub mint : ℕ → S → S × Result MintError URef
  mint initial_balance s =
      if not (initial_balance == 0) && not (r.get_caller s == system_account)
      then (s, err invalid_non_empty_purse_creation)
      else (let (s1, balance_uref) = new_balance_uref initial_balance s in
          let (s2, purse_key) = new_purse_uref s1 in
          let s3 = r.put_key (remove_access_rights purse_key) (uref balance_uref) s2 in
          (write_local purse_key.addr (uref balance_uref) s3, ok purse_key))

  unfoldable pub balance : URef → S → Result MintError (Option ℕ)
  balance purse s = elim (read_local purse.addr s) [
    | err x ↦ err x
    | ok none ↦ ok none
    | ok (some key) ↦
        Base.◌>>=◌ (balance_of_key key)
          (λ u. Base.◌>>=◌ (require_value purse_not_found (read u s)) (λ n. ok (some n)))
  ]

  -- The writes at the end of `transfer`.
  unfoldable pub move_funds : URef → URef → ℕ → ℕ → S → S × Result MintError ⊤
  move_funds source_bal dest_bal source_value amount s =
      let (s1, written) = write source_bal (source_value - amount) s in
      elim written [ err x ↦ (s1, err x) | ok _ ↦ add dest_bal amount s1 ]

  -- What `transfer` finds out before it writes: both balances, and the source's value.
  unfoldable pub check_transfer :
      URef → URef → ℕ → S → Result MintError (record { from : URef; to : URef; value : ℕ })
  check_transfer source dest amount s =
      if not (is_writeable source) || not (is_addable dest)
      then err invalid_access_rights
      else Base.◌>>=◌ (require_balance source_not_found (read_local source.addr s)) (λ source_bal.
        Base.◌>>=◌ (require_value source_not_found (read source_bal s)) (λ source_value.
          if ltb source_value amount
          then err insufficient_funds
          else Base.◌>>=◌ (require_balance dest_not_found (read_local dest.addr s))
              (λ dest_bal. ok (record { from = source_bal; to = dest_bal; value = source_value }))))

  unfoldable pub transfer : URef → URef → ℕ → S → S × Result MintError ⊤
  transfer source dest amount s = elim (check_transfer source dest amount s) [
    | err x ↦ (s, err x)
    | ok c ↦ move_funds c.from c.to c.value amount s
  ]
