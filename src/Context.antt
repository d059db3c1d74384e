-- ===== src/Context.antt =====
-- The context of running code: execution-engine/engine-core/src/runtime_context/mod.rs. A call returns the
-- context as it leaves it beside its result, on an error too. Arguments, gas, time and versions, which
-- are only kept and handed out, are left out, and so are the texts inside of errors.
pub mod Calls
pub mod Guards
pub mod History
pub mod Kept
pub mod Manage
pub mod Safety
mod Tests
pub mod Grows
pub mod Growth
pub mod Rights
use Prim.Native.Nat.{bit_and}
use Prim.Native.String.{String}
use casper_labs.Base.{
  ℕ, Bool, true, false, not, ◌&&◌, Option, none, some, List, [], ◌∷◌, ⊤, Result, ok, err, map_err,
  is_ok, ◌==◌, if◌then◌else◌,
}
use casper_labs.Base
use casper_labs.BtreeMap.{BtreeMap, get, insert}
use casper_labs.Types.{AccessRights, Address, URef, Key, PurseId, uref, local, new_uref}
use casper_labs.Types
use casper_labs.KeyMap.{key_eq}
use casper_labs.Account.{
  Account, AddKeyFailure, RemoveKeyFailure, UpdateKeyFailure, SetThresholdFailure, ActionType,
  can_manage_keys_with,
}
use casper_labs.Account
use casper_labs.Account.Keys.{PublicKey}
use casper_labs.Account.Thresholds.{Weight}
use casper_labs.Values.{
  BytesreprError, NamedKeys, ClValue, number, broken, other, Contract, StoredValue, cl_value,
  account, contract,
}
use casper_labs.Bytes.{Bytes, deserialize}
use casper_labs.Bytes.Shared.{vec_key_codec, vec_uref_codec}
use casper_labs.TrackingCopy.{
  TrackingCopy, LinkedHashMap, AddResult, success, key_not_found, type_mismatch, serialization,
  read, write_value, add_value,
}

-- The errors of execution-engine/engine-core/src/execution/error.rs that the context returns.
pub data ContextError (E : Type 0) : Type 0 where
  storage : E → ContextError E
  bytes_repr cl_value_error : BytesreprError → ContextError E
  context_key_not_found : Key → ContextError E
  context_type_mismatch function_not_found invalid_context : ContextError E
  invalid_access : AccessRights → ContextError E
  forged_reference : URef → ContextError E
  add_key_failure : AddKeyFailure → ContextError E
  remove_key_failure : RemoveKeyFailure → ContextError E
  update_key_failure : UpdateKeyFailure → ContextError E
  set_threshold_failure : SetThresholdFailure → ContextError E

-- `access_rights`, a `HashMap` by address, has the sets of rights as lists; `G` is the state of the address generator.
pub record RuntimeContext (L V E G : Type 0) : Type 0 where
  pub state : TrackingCopy L V E
  pub named_keys : NamedKeys
  pub access_rights : BtreeMap (List AccessRights)
  pub account : Account NamedKeys PurseId
  pub authorization_keys : List PublicKey
  pub base_key : Key
  pub address_generator : G
  pub fn_store_id : ℕ

-- What a value of no integral type holds, by its type: a key, a reference, a name with a key, each with
-- its decoding, or what is not looked at.
pub data Held : Type 0 where
  held_key : Result BytesreprError Key → Held
  held_uref : Result BytesreprError URef → Held
  held_named_key : Result BytesreprError (String × Key) → Held
  held_other : Held

-- `known_rights.iter().any(|right| *right & new_rights == new_rights)`
unfoldable pub any_covers : AccessRights → List AccessRights → Bool
any_covers new_rights [] = false
any_covers new_rights (right ∷ known_rights) =
    let rest = any_covers new_rights known_rights in
    if bit_and right new_rights == new_rights then true else rest

-- The second part of `validate_uref`: the key is known, with sufficient rights.
unfoldable pub is_known : Option (List AccessRights) → Option AccessRights → Bool
unfolding any_covers
is_known none new_rights = false
is_known (some known_rights) none = true
is_known (some known_rights) (some new_rights) = any_covers new_rights known_rights

-- The rights of the account's purse and those of a reference to it
unfoldable pub rights_match : Option AccessRights → Option AccessRights → Bool
rights_match (some rights) (some uref_rights) = bit_and rights uref_rights == uref_rights
rights_match _ _ = false

-- The set under an address, which is empty at first
abbrev pub entry : Option (List AccessRights) → List AccessRights
entry none = []
entry (some rights) = rights

abbrev pub Call : (L V E G A : Type 0) → Type 0
Call L V E G A = RuntimeContext L V E G → RuntimeContext L V E G × Result (ContextError E) A

module _ {L V E G : Type 0} where
  -- `?` after a check
  abbrev pub check : {A : Type 0} → Result (ContextError E) ⊤ → Call L V E G A → Call L V E G A
  check (ok _) next c = next c
  check (err e) next c = (c, err e)

  abbrev pub and_then :
      {A B : Type 0}
      → RuntimeContext L V E G × Result (ContextError E) A
      → (A → Call L V E G B)
      → RuntimeContext L V E G × Result (ContextError E) B
  and_then (c, ok a) next = next a c
  and_then (c, err e) next = (c, err e)

  abbrev pub seed : RuntimeContext L V E G → ℕ
  seed c = elim c.base_key [
    | Types.account a ↦ a
    | Types.hash h ↦ h
    | uref u ↦ u.addr
    | local h ↦ h
  ]

  unfoldable pub is_valid_context : RuntimeContext L V E G → Bool
  is_valid_context c = key_eq c.base_key (Types.account c.account.public_key)

  unfoldable pub validate_uref : URef → RuntimeContext L V E G → Result (ContextError E) ⊤
  unfolding is_known rights_match
  validate_uref u c =
      if c.account.purse_id.addr == u.addr
        && rights_match c.account.purse_id.access_rights u.access_rights
      then ok tt
      else if is_known (get u.addr c.access_rights) u.access_rights
      then ok tt
      else err (forged_reference u)

  unfoldable pub validate_key : Key → RuntimeContext L V E G → Result (ContextError E) ⊤
  unfolding validate_uref
  validate_key (uref u) c = validate_uref u c
  validate_key (Types.account _) c = ok tt
  validate_key (Types.hash _) c = ok tt
  validate_key (local _) c = ok tt

  -- `try_for_each(|key| self.validate_key(key))`
  unfoldable pub validate_keys : List Key → RuntimeContext L V E G → Result (ContextError E) ⊤
  unfolding validate_key
  validate_keys [] c = ok tt
  validate_keys (k ∷ ks) c = Base.◌>>=◌ (validate_key k c) (λ _. validate_keys ks c)

  unfoldable pub validate_urefs : List URef → RuntimeContext L V E G → Result (ContextError E) ⊤
  unfolding validate_uref
  validate_urefs [] c = ok tt
  validate_urefs (u ∷ us) c = Base.◌>>=◌ (validate_uref u c) (λ _. validate_urefs us c)

  unfoldable pub is_readable : Key → RuntimeContext L V E G → Bool
  is_readable (Types.account a) c = key_eq c.base_key (Types.account a)
  is_readable (Types.hash _) c = true
  is_readable (uref u) c = Types.is_readable u
  is_readable (local _) c = false

  unfoldable pub is_addable : Key → RuntimeContext L V E G → Bool
  is_addable (Types.account a) c = key_eq c.base_key (Types.account a)
  is_addable (Types.hash h) c = key_eq c.base_key (Types.hash h)
  is_addable (uref u) c = Types.is_addable u
  is_addable (local _) c = false

  unfoldable pub is_writeable : Key → RuntimeContext L V E G → Bool
  is_writeable (Types.account _) c = false
  is_writeable (Types.hash _) c = false
  is_writeable (uref u) c = Types.is_writeable u
  is_writeable (local _) c = false

  unfoldable pub validate_readable : Key → RuntimeContext L V E G → Result (ContextError E) ⊤
  unfolding is_readable
  validate_readable key c = if is_readable key c then ok tt else err (invalid_access Types.read)

  unfoldable pub validate_addable : Key → RuntimeContext L V E G → Result (ContextError E) ⊤
  unfolding is_addable
  validate_addable key c = if is_addable key c then ok tt else err (invalid_access Types.add)

  unfoldable pub validate_writeable : Key → RuntimeContext L V E G → Result (ContextError E) ⊤
  unfolding is_writeable
  validate_writeable key c = if is_writeable key c then ok tt else err (invalid_access Types.write)

  unfoldable pub deserialize_keys :
      Bytes → RuntimeContext L V E G → Result (ContextError E) (List Key)
  unfolding deserialize validate_keys
  deserialize_keys bytes c =
      Base.◌>>=◌ (map_err bytes_repr (deserialize vec_key_codec bytes))
        (λ keys. Base.◌>>=◌ (validate_keys keys c) (λ _. ok keys))

  unfoldable pub deserialize_urefs :
      Bytes → RuntimeContext L V E G → Result (ContextError E) (List URef)
  unfolding deserialize validate_urefs
  deserialize_urefs bytes c =
      Base.◌>>=◌ (map_err bytes_repr (deserialize vec_uref_codec bytes))
        (λ keys. Base.◌>>=◌ (validate_urefs keys c) (λ _. ok keys))

  unfoldable pub insert_uref : URef → RuntimeContext L V E G → RuntimeContext L V E G
  insert_uref u c = elim u.access_rights [
    | none ↦ c
    | some rights ↦ record c {
      access_rights = insert u.addr (rights ∷ entry (get u.addr c.access_rights)) c.access_rights;
    }
  ]
