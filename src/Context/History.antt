-- ===== src/Context/History.antt =====
-- Sequences of the calls of execution-engine/engine-core/src/runtime_context/mod.rs, and what each of
-- them leaves of the context beside the state.
use Prim.Native.String.{String}
use casper_labs.Base.{ℕ, ◌≡◌, List, [], ◌∷◌, ok}
use casper_labs.BtreeMap.{BtreeMap}
use casper_labs.Types.{AccessRights, Key, PurseId}
use casper_labs.Account.{Account, ActionType}
use casper_labs.Account.Keys.{PublicKey}
use casper_labs.Account.Thresholds.{Weight}
use casper_labs.Values.{NamedKeys, ClValue, Contract, StoredValue}
use casper_labs.Bytes.{Bytes}
use casper_labs.TrackingCopy.{LinkedHashMap}
use casper_labs.Context.{RuntimeContext, held_named_key}
use casper_labs.Context.Calls.{
  Environment, read_gs, write_gs, add_gs, read_ls, write_ls, add_ls, put_key, new_uref_key,
  upgrade_contract_at_uref,
}
use casper_labs.Context.Manage.{
  add_associated_key, remove_associated_key, update_associated_key, set_action_threshold,
  store_function_at_hash,
}

-- The calls that a contract can make
pub data ContextCall (V : Type 0) : Type 0 where
  reading : Key → ContextCall V
  writing adding : Key → StoredValue V → ContextCall V
  reading_local : Bytes → ContextCall V
  writing_local adding_local : Bytes → ClValue V → ContextCall V
  putting : String → Key → ContextCall V
  creating storing : StoredValue V → ContextCall V
  upgrading : Key → Contract → ContextCall V
  adding_key updating_key : PublicKey → Weight → ContextCall V
  removing_key : PublicKey → ContextCall V
  setting : ActionType → Weight → ContextCall V

-- What of a context decides on the references it accepts
abbrev pub known :
    {L V E G : Type 0}
    → RuntimeContext L V E G
    → Account NamedKeys PurseId × BtreeMap (List AccessRights) × NamedKeys
known c = (c.account, c.access_rights, c.named_keys)

-- A name with a key, as a value, is read back as such.
abbrev pub IsReadBack : {V G : Type 0} → Environment V G → Type 0
IsReadBack {V} env =
    (name : String) (key : Key) (v : V)
    → env.named_key (name, key) ≡ ok v
    → env.held v ≡ held_named_key (ok (name, key))

module _ {L V E G : Type 0} (env : Environment V G) (map : LinkedHashMap L (StoredValue V))
    (meter : Key → StoredValue V → ℕ) where
  unfoldable pub perform : ContextCall V → RuntimeContext L V E G → RuntimeContext L V E G
  unfolding read_gs write_gs add_gs read_ls write_ls add_ls put_key new_uref_key
      store_function_at_hash upgrade_contract_at_uref add_associated_key update_associated_key
      remove_associated_key set_action_threshold
  perform (reading key) c = (read_gs env map meter key c).0
  perform (writing key value) c = (write_gs env map meter key value c).0
  perform (adding key value) c = (add_gs env map meter key value c).0
  perform (reading_local bytes) c = (read_ls env map meter bytes c).0
  perform (writing_local bytes v) c = (write_ls env map meter bytes v c).0
  perform (adding_local bytes v) c = (add_ls env map meter bytes v c).0
  perform (putting name key) c = (put_key env map meter name key c).0
  perform (creating value) c = (new_uref_key env map meter value c).0
  perform (storing value) c = (store_function_at_hash env map meter value c).0
  perform (upgrading key k) c = (upgrade_contract_at_uref env map meter key k c).0
  perform (adding_key key w) c = (add_associated_key env map meter key w c).0
  perform (updating_key key w) c = (update_associated_key env map meter key w c).0
  perform (removing_key key) c = (remove_associated_key env map meter key c).0
  perform (setting t w) c = (set_action_threshold env map meter t w c).0

  abbrev pub perform_all : List (ContextCall V) → RuntimeContext L V E G → RuntimeContext L V E G
  perform_all [] c = c
  perform_all (call ∷ calls) c = perform_all calls (perform call c)
