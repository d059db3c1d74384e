-- ===== src/Context/Calls.antt =====
-- The calls of execution-engine/engine-core/src/runtime_context/mod.rs that read or write the state.
use Prim.Native.String.{String}
use text.Mathlib.Text.{◌==◌ as str_eq}
use casper_labs.Base.{ℕ, Option, none, some, List, ⊤, Result, ok, err, map_err, if◌then◌else◌, ◌==◌}
use casper_labs.Types.{URef, Key, PurseId, uref, local, new_uref, into_read, into_read_add_write}
use casper_labs.Types
use casper_labs.Account.{Account}
use casper_labs.Values.{
  BytesreprError, NamedKeys, ClValue, number, broken, other, Contract, StoredValue, cl_value,
  account, contract,
}
use casper_labs.Bytes.{Bytes}
use casper_labs.TrackingCopy.{
  LinkedHashMap, AddResult, success, key_not_found, type_mismatch, serialization, read, write_value,
  add_value,
}
use casper_labs.Context.{
  ContextError, storage, bytes_repr, cl_value_error, context_key_not_found, context_type_mismatch,
  function_not_found, invalid_context, RuntimeContext, Held, held_key, held_uref, held_named_key,
  held_other, Call, check, and_then, seed, is_valid_context, validate_uref, validate_key,
  validate_keys, validate_readable, validate_addable, validate_writeable, insert_uref,
}

-- What the calls take from elsewhere: what a value of no integral type holds, and how a name with a key
-- becomes one; the keys of a map of names; the hash of a local key; the hash of the deploy with a counter;
-- and the generator of addresses.
pub record Environment (V G : Type 0) : Type 0 where
  pub held : V → Held
  pub named_key : String × Key → Result BytesreprError V
  pub named_values : NamedKeys → List Key
  pub local_address : ℕ → Bytes → ℕ
  pub function_address : ℕ → ℕ
  pub create_address : G → G × ℕ

-- `system_account`
abbrev system_account_addr : ℕ
system_account_addr = 0

unfoldable pub attenuate_uref_for_account : Account NamedKeys PurseId → URef → URef
attenuate_uref_for_account a u =
    if a.public_key == system_account_addr then into_read_add_write u else into_read u

abbrev pub named_key_of : Held → Option (Result BytesreprError (String × Key))
named_key_of (held_named_key r) = some r
named_key_of (held_key _) = none
named_key_of (held_uref _) = none
named_key_of held_other = none

-- `Key::local(seed, key_bytes)`
abbrev pub local_key : {V G : Type 0} → Environment V G → ℕ → Bytes → Key
local_key env seed_bytes key_bytes = local (env.local_address seed_bytes key_bytes)

module _ {L V E G : Type 0} (env : Environment V G) (map : LinkedHashMap L (StoredValue V))
    (meter : Key → StoredValue V → ℕ) where
  unfoldable pub validate_held : Held → RuntimeContext L V E G → Result (ContextError E) ⊤
  validate_held held_other c = ok tt
  validate_held (held_key (ok key)) c = validate_key key c
  validate_held (held_key (err e)) c = err (cl_value_error e)
  validate_held (held_uref (ok u)) c = validate_uref u c
  validate_held (held_uref (err e)) c = err (cl_value_error e)
  validate_held (held_named_key (ok (_, key))) c = validate_key key c
  validate_held (held_named_key (err e)) c = err (cl_value_error e)

  unfoldable pub validate_value : StoredValue V → RuntimeContext L V E G → Result (ContextError E) ⊤
  unfolding validate_held
  validate_value (cl_value (number _ _)) c = ok tt
  validate_value (cl_value (broken _ _)) c = ok tt
  validate_value (cl_value (other v)) c = validate_held (env.held v) c
  validate_value (account a) c = validate_keys (env.named_values a.named_keys) c
  validate_value (contract k) c = validate_keys (env.named_values k.named_keys) c

  -- `self.state.borrow_mut().read(…)` and `write(…)`
  unfoldable pub read_gs_direct : Key → Call L V E G (Option (StoredValue V))
  unfolding read
  read_gs_direct key c =
      let (s, r) = read map meter key c.state in (record c { state = s }, map_err storage r)

  unfoldable pub write_direct :
      Key → StoredValue V → RuntimeContext L V E G → RuntimeContext L V E G
  unfolding write_value
  write_direct key value c = record c { state = write_value map meter key value c.state }

  unfoldable pub read_gs : Key → Call L V E G (Option (StoredValue V))
  unfolding read_gs_direct
  read_gs key c =
      check (validate_readable key c) (check (validate_key key c) (read_gs_direct key)) c

  -- What a stored value is read as, with the error for another type, or for none.
  abbrev pub typed :
      {T : Type 0}
      → (StoredValue V → Option T)
      → Key
      → Option (StoredValue V)
      → Result (ContextError E) T
  typed as_type key none = err (context_key_not_found key)
  typed as_type key (some value) = elim (as_type value) [
    | some t ↦ ok t
    | none ↦ err function_not_found
  ]

  unfoldable pub read_gs_typed : {T : Type 0} → (StoredValue V → Option T) → Key → Call L V E G T
  unfolding read_gs
  read_gs_typed as_type key c = and_then (read_gs key c) (λ found c'. (c', typed as_type key found))

  unfoldable pub write_gs : Key → StoredValue V → Call L V E G ⊤
  unfolding write_direct
  write_gs key value c =
      check (validate_writeable key c)
        (check (validate_key key c)
          (check (validate_value value c) (λ c'. (write_direct key value c', ok tt))))
        c

  abbrev pub add_outcome : Result E AddResult → Result (ContextError E) ⊤
  add_outcome (err e) = err (storage e)
  add_outcome (ok success) = ok tt
  add_outcome (ok (key_not_found key)) = err (context_key_not_found key)
  add_outcome (ok type_mismatch) = err context_type_mismatch
  add_outcome (ok (serialization e)) = err (bytes_repr e)

  unfoldable pub add_unsafe : Key → StoredValue V → Call L V E G ⊤
  unfolding add_value
  add_unsafe key value c =
      let (s, r) = add_value map meter (λ v. named_key_of (env.held v)) key value c.state in
      (record c { state = s }, add_outcome r)

  unfoldable pub add_gs : Key → StoredValue V → Call L V E G ⊤
  unfolding add_unsafe
  add_gs key value c =
      check (validate_addable key c)
        (check (validate_key key c) (check (validate_value value c) (add_unsafe key value))) c

  abbrev pub as_cl_value : Option (StoredValue V) → Result (ContextError E) (Option (ClValue V))
  as_cl_value none = ok none
  as_cl_value (some (cl_value v)) = ok (some v)
  as_cl_value (some (account _)) = err context_type_mismatch
  as_cl_value (some (contract _)) = err context_type_mismatch

  unfoldable pub read_ls_with_seed : ℕ → Bytes → Call L V E G (Option (ClValue V))
  unfolding read_gs_direct
  read_ls_with_seed seed_bytes key_bytes c =
      and_then (read_gs_direct (local_key env seed_bytes key_bytes) c)
        (λ found c'. (c', as_cl_value found))

  unfoldable pub read_ls : Bytes → Call L V E G (Option (ClValue V))
  unfolding read_ls_with_seed
  read_ls key_bytes c = read_ls_with_seed (seed c) key_bytes c

  unfoldable pub write_ls : Bytes → ClValue V → Call L V E G ⊤
  unfolding write_direct
  write_ls key_bytes v c = (write_direct (local_key env (seed c) key_bytes) (cl_value v) c, ok tt)

  unfoldable pub add_ls : Bytes → ClValue V → Call L V E G ⊤
  unfolding add_unsafe
  add_ls key_bytes v c = add_unsafe (local_key env (seed c) key_bytes) (cl_value v) c

  unfoldable pub with_rights : Key → RuntimeContext L V E G → RuntimeContext L V E G
  unfolding insert_uref
  with_rights (uref u) c = insert_uref u c
  with_rights (Types.account _) c = c
  with_rights (Types.hash _) c = c
  with_rights (local _) c = c

  unfoldable pub insert_key : String → Key → RuntimeContext L V E G → RuntimeContext L V E G
  unfolding with_rights
  insert_key name key c =
      let c' = with_rights key c in
      record c' { named_keys = λ n. if str_eq n name then some key else c'.named_keys n }

  -- `put_key` from the value that the name and the key make
  unfoldable pub put_value : String → Key → Result BytesreprError V → Call L V E G ⊤
  unfolding insert_key add_unsafe
  put_value name key (err e) c = (c, err (cl_value_error e))
  put_value name key (ok v) c =
      check (validate_value (cl_value (other v)) c)
        (λ c'.
          and_then (add_unsafe c'.base_key (cl_value (other v)) c')
            (λ _ c''. (insert_key name key c'', ok tt)))
        c

  unfoldable pub put_key : String → Key → Call L V E G ⊤
  unfolding put_value
  put_key name key c = put_value name key (env.named_key (name, key)) c

  unfoldable pub new_uref_key : StoredValue V → Call L V E G Key
  unfolding write_gs
  new_uref_key value c =
      let (g, addr) = env.create_address c.address_generator in
      let u = new_uref addr Types.read_add_write in
      and_then (write_gs (uref u) value (insert_uref u (record c { address_generator = g })))
        (λ _ c'. (c', ok (uref u)))

  unfoldable pub upgrade_contract_at_uref : Key → Contract → Call L V E G ⊤
  unfolding write_direct
  upgrade_contract_at_uref key k c =
      check (validate_writeable key c)
        (check (validate_key key c) (λ c'. (write_direct key (contract k) c', ok tt))) c

  unfoldable pub get_main_purse : RuntimeContext L V E G → Result (ContextError E) PurseId
  get_main_purse c = if is_valid_context c then ok c.account.purse_id else err invalid_context
