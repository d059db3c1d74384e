-- ===== src/Context/Guards.antt =====
-- What the guards of the calls of execution-engine/engine-core/src/runtime_context/mod.rs let through.
use casper_labs.Base.{
  ℕ, ◌≡◌, true, Bool-cases, ◌⊎◌, ◌↔◌, Option, none, some, List, [], ◌∷◌, ⊤, Result, ok, err,
  Result-cases,
}
use casper_labs.Base
use casper_labs.Types.{Key, PurseId, URef, uref, local}
use casper_labs.Types
use casper_labs.Account.{Account, can_manage_keys_with}
use casper_labs.Account
use casper_labs.Values.{NamedKeys, StoredValue, account}
use casper_labs.TrackingCopy.{LinkedHashMap, write_value}
use casper_labs.Context.{ContextError, RuntimeContext, is_valid_context, is_writeable}
use casper_labs.Context.Calls.{Environment, validate_value, read_gs_typed}
use casper_labs.Context.Rights.{Accepts}
use casper_labs.Context.Manage.{as_account, own_key}

-- An error, with the context as it was
abbrev pub Refused :
    {L V E G A : Type 0}
    → RuntimeContext L V E G
    → RuntimeContext L V E G × Result (ContextError E) A
    → Type 0
Refused {E} c result = (e : ContextError E) × (result ≡ (c, err e))

module _ {L V E G : Type 0} (env : Environment V G) (map : LinkedHashMap L (StoredValue V))
    (meter : Key → StoredValue V → ℕ) where
  -- The key is an accepted reference with the right to write, and the value holds no forged reference.
  abbrev pub Writes : Key → StoredValue V → RuntimeContext L V E G → Type 0
  Writes (uref u) value c =
      (Types.is_writeable u ≡ true) × Accepts c u × (validate_value env map meter value c ≡ ok tt)
  Writes (Types.account _) value c = ⊥
  Writes (Types.hash _) value c = ⊥
  Writes (local _) value c = ⊥

  -- The account's own context, with keys that reach the threshold of key management
  abbrev pub MayManage : RuntimeContext L V E G → Type 0
  MayManage c =
      (is_valid_context c ≡ true) × (can_manage_keys_with c.authorization_keys c.account ≡ true)

  -- A call is denied unless it may manage keys, and if it succeeds then the account was read, changed
  -- without a failure, and written back.
  abbrev pub Managed :
      ContextError E
      → (Account NamedKeys PurseId → Account NamedKeys PurseId × Result (ContextError E) ⊤)
      → RuntimeContext L V E G
      → RuntimeContext L V E G × Result (ContextError E) ⊤
      → Type 0
  Managed denied change c result =
      (MayManage c ⊎ (result ≡ (c, err denied)))
      × (result.1 ≡ ok tt
          → MayManage c
            × (a : Account NamedKeys PurseId) × (d : RuntimeContext L V E G) × (read_gs_typed env
                  map meter as_account (own_key c) c
                ≡ (d, ok a))
            × ((change a).1 ≡ ok tt)
            × (result.0 ≡ record d {
              state = write_value map meter (own_key c) (account (change a).0) d.state;
            }))
