-- ===== src/Context/Grows.antt =====
-- What each call of execution-engine/engine-core/src/runtime_context/mod.rs
-- adds to what its context accepts.
use Prim.Native.String.{String}
use text.Mathlib.Text.{◌==◌ as str_eq}
use casper_labs.Base.{
  ℕ, ◌≡◌, refl, sym, ap, Option, none, some, List, ◌∷◌, ⊤, Result, ok, err, if◌then◌else◌,
}
use casper_labs.BtreeMap.{BtreeMap, get, insert}
use casper_labs.Types.{AccessRights, Key, PurseId, URef, new_uref, uref, local}
use casper_labs.Types
use casper_labs.Account.{Account}
use casper_labs.Values.{BytesreprError, NamedKeys, other, StoredValue, cl_value}
use casper_labs.TrackingCopy.{LinkedHashMap}
use casper_labs.Context.{
  ContextError, RuntimeContext, check, seed, and_then, entry, insert_uref, validate_key,
  validate_writeable,
}
use casper_labs.Context.Calls.{
  Environment, local_key, validate_value, read_gs_direct, write_direct, write_gs, add_unsafe,
  read_ls, read_ls_with_seed, write_ls, add_ls, insert_key, with_rights, put_value, validate_held,
  put_key, new_uref_key, upgrade_contract_at_uref,
}
use casper_labs.Context.Manage.{
  add_associated_key, remove_associated_key, update_associated_key, set_action_threshold,
  new_function_address, store_function_at_hash,
}
use casper_labs.Context.History.{
  ContextCall, reading, writing, adding, reading_local, writing_local, adding_local, putting,
  creating, storing, upgrading, adding_key, updating_key, removing_key, setting, known, IsReadBack,
  perform,
}
use casper_labs.Context.Kept.{
  check-known, and_then-known, write_gs-known, read_gs-known, add_unsafe-known, add_gs-known,
  manage-known,
}

-- What is known with another name
abbrev with_name :
    String
    → Key
    → Account NamedKeys PurseId × BtreeMap (List AccessRights) × NamedKeys
    → Account NamedKeys PurseId × BtreeMap (List AccessRights) × NamedKeys
with_name name key (a, rights, names) =
    (a, rights, λ n. if str_eq n name then some key else names n)

module _ {L V E G : Type 0} (env : Environment V G) (map : LinkedHashMap L (StoredValue V))
    (meter : Key → StoredValue V → ℕ) where
  -- What a call leaves known of the context: all, all with a name whose key is accepted, or all with the
  -- reference that it created.
  pub data Grows (c : RuntimeContext L V E G)
      : ContextCall V → RuntimeContext L V E G → Type 0 where
    kept : {call : ContextCall V} {d : RuntimeContext L V E G} → known d ≡ known c → Grows c call d
    named :
        {d : RuntimeContext L V E G} (name : String) (key : Key)
        → validate_key key c ≡ ok tt
        → known d ≡ known (insert_key env map meter name key c)
        → Grows c (putting name key) d
    created :
        {d : RuntimeContext L V E G} (value : StoredValue V)
        → known d
          ≡ known (
              insert_uref
                (new_uref (env.create_address c.address_generator).1 Types.read_add_write)
                c)
        → Grows c (creating value) d

  insert_uref-known :
      (a : ℕ) (rights : Option AccessRights) (c d : RuntimeContext L V E G)
      → known d ≡ known c
      → known (insert_uref (record { addr = a; access_rights = rights }) d)
        ≡ known (insert_uref (record { addr = a; access_rights = rights }) c)
  unfolding insert_uref
  insert_uref-known a none c d h = h
  insert_uref-known a (some r) c d h = ap (λ k. (k.0, insert a (r ∷ entry (get a k.1)) k.1, k.2)) h

  insert_key-known :
      (name : String) (key : Key) (c d : RuntimeContext L V E G)
      → known d ≡ known c
      → known (insert_key env map meter name key d) ≡ known (insert_key env map meter name key c)
  unfolding insert_key with_rights insert_uref
  insert_key-known name (Types.account _) c d h = ap (with_name name _) h
  insert_key-known name (Types.hash _) c d h = ap (with_name name _) h
  insert_key-known name (local _) c d h = ap (with_name name _) h
  insert_key-known name (uref u) c d h =
      ap (with_name name (uref u)) (insert_uref-known u.addr u.access_rights c d h)

  put_added :
      (name : String) (key : Key) (c : RuntimeContext L V E G)
      (p : RuntimeContext L V E G × Result (ContextError E) ⊤)
      → known p.0 ≡ known c
      → validate_key key c ≡ ok tt
      → Grows c
          (putting name key)
          (and_then p (λ _ d. (insert_key env map meter name key d, ok tt))).0
  put_added name key c (d, ok _) h valid = named name key valid (insert_key-known name key c d h)
  put_added name key c (d, err _) h valid = kept h

  put_checked :
      (name : String) (key : Key) (v : V) (c : RuntimeContext L V E G)
      (r : Result (ContextError E) ⊤)
      → r ≡ validate_key key c
      → Grows c
          (putting name key)
          (check r
            (λ d.
              and_then
                (add_unsafe env map meter d.base_key (cl_value (other v)) d)
                (λ _ d'. (insert_key env map meter name key d', ok tt)))
            c).0
  put_checked name key v c (ok _) e =
      put_added name key c (add_unsafe env map meter c.base_key (cl_value (other v)) c)
        (add_unsafe-known env map meter c.base_key (cl_value (other v)) c) (sym e)
  put_checked name key v c (err _) e = kept refl

  put_value-Grows :
      IsReadBack env
      → (name : String) (key : Key) (c : RuntimeContext L V E G) (r : Result BytesreprError V)
      → env.named_key (name, key) ≡ r
      → Grows c (putting name key) (put_value env map meter name key r c).0
  unfolding put_value validate_value validate_held
  put_value-Grows law name key c (err e) h = kept refl
  put_value-Grows law name key c (ok v) h =
      put_checked name key v c (validate_value env map meter (cl_value (other v)) c)
        (rw (law name key v h) refl)

  new_uref_key-known :
      (value : StoredValue V) (c : RuntimeContext L V E G)
      → known (new_uref_key env map meter value c).0
        ≡ known (
            insert_uref
              (new_uref (env.create_address c.address_generator).1 Types.read_add_write)
              c)
  unfolding new_uref_key insert_uref
  new_uref_key-known value c =
      let (g, addr) = env.create_address c.address_generator in
      let u : URef = new_uref addr Types.read_add_write in
      let d : RuntimeContext L V E G = insert_uref u (record c { address_generator = g }) in
      and_then-known (write_gs env map meter (uref u) value d) (λ _ c'. (c', ok (uref u))) d
        (write_gs-known env map meter (uref u) value d) (λ _ _. refl)

  pub perform-Grows :
      IsReadBack env
      → (call : ContextCall V) (c : RuntimeContext L V E G)
      → Grows c call (perform env map meter call c)
  unfolding add_ls write_ls read_ls read_ls_with_seed read_gs_direct write_direct
      upgrade_contract_at_uref store_function_at_hash new_function_address add_associated_key
      update_associated_key remove_associated_key set_action_threshold new_uref_key perform put_key
      insert_uref
  perform-Grows law (reading key) c = kept (read_gs-known env map meter key c)
  perform-Grows law (writing key value) c = kept (write_gs-known env map meter key value c)
  perform-Grows law (adding key value) c = kept (add_gs-known env map meter key value c)
  perform-Grows law (reading_local bytes) c = kept (and_then-known _ _ c refl (λ _ _. refl))
  perform-Grows law (writing_local bytes v) c = kept refl
  perform-Grows law (adding_local bytes v) c =
      kept (add_unsafe-known env map meter (local_key env (seed c) bytes) (cl_value v) c)
  perform-Grows law (putting name key) c =
      put_value-Grows law name key c (env.named_key (name, key)) refl
  perform-Grows law (creating value) c = created value (new_uref_key-known value c)
  perform-Grows law (storing value) c =
      kept (check-known (validate_value env map meter value _) _ _ refl)
  perform-Grows law (upgrading key k) c =
      kept (check-known (validate_writeable key c) _ c (check-known (validate_key key c) _ c refl))
  perform-Grows law (adding_key key w) c = kept (manage-known env map meter _ _ c)
  perform-Grows law (updating_key key w) c = kept (manage-known env map meter _ _ c)
  perform-Grows law (removing_key key) c = kept (manage-known env map meter _ _ c)
  perform-Grows law (setting t w) c = kept (manage-known env map meter _ _ c)
