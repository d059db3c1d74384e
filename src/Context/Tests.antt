-- ===== src/Context/Tests.antt =====
-- Contexts at concrete inputs. The named values are a name and a key, which are read back as such.
use Prim.Native.String.{String}
use casper_labs.Base.{ℕ, ◌+◌, ◌≡◌, ◌↔◌, ◌⊎◌, refl, none, some, ok, err, ⊤, List, [], ◌∷◌}
use casper_labs.Types.{Key, URef, new_uref, uref, account}
use casper_labs.Types
use casper_labs.KeyMap.{KeyMap}
use casper_labs.Account
use casper_labs.Values.{u512, number, other, StoredValue, cl_value}
use casper_labs.Values
use casper_labs.TrackingCopy.{new}
use casper_labs.TrackingCopy.Linked.{linked}
use casper_labs.Account.Keys.{calculate_keys_weight}
use casper_labs.Context.{
  validate_readable, validate_key, validate_keys, RuntimeContext, held_named_key, validate_uref,
  forged_reference,
}
use casper_labs.Context.Calls.{Environment}
use casper_labs.Context.Rights.{Accepts, validate_uref-exact}
use casper_labs.Context.Manage.{add_associated_key}
use casper_labs.Context.History.{ContextCall, putting, creating, writing}

abbrev Named : Type 0
Named = String × Key

abbrev environment : Environment Named ℕ
environment = record {
  held = λ v. held_named_key (ok v);
  named_key = λ v. ok v;
  named_values = λ names. elim (names "purse") [ some key ↦ key ∷ [] | none ↦ [] ];
  local_address = λ seed bytes. seed;
  function_address = λ id. id;
  create_address = λ g. (g + 1, g);
}

abbrev size : Key → StoredValue Named → ℕ
size k v = 1

abbrev owner : Account.Account Values.NamedKeys Types.PurseId
owner = record {
  public_key = 7;
  named_keys = λ n. none;
  purse_id = new_uref 70 Types.read_add_write;
  associated_keys = (7, 1) ∷ [];
  action_thresholds = record { deployment = 1; key_management = 1 };
}

-- The account's own context, with one known reference that allows for reading and writing
abbrev context : RuntimeContext (KeyMap (StoredValue Named)) Named ⊤ ℕ
context = record {
  state = new linked (λ k. ok (some (Values.account owner)));
  named_keys = λ n. none;
  access_rights = (50, Types.read_write ∷ []) ∷ [];
  account = owner;
  authorization_keys = 7 ∷ [];
  base_key = account 7;
  address_generator = 90;
  fn_store_id = 0;
}

abbrev shared : URef
shared = new_uref 50 Types.write

abbrev calls : List (ContextCall Named)
calls =
    creating (cl_value (number u512 1))
    ∷ putting "purse" (uref shared)
    ∷ writing (uref shared) (cl_value (number u512 2))
    ∷ []

validate_uref-exact_example :
    ((validate_uref shared context ≡ ok tt) ↔ Accepts context shared)
    × ((validate_uref shared context ≡ ok tt)
        ⊎ (validate_uref shared context ≡ err (forged_reference shared)))
validate_uref-exact_example = validate_uref-exact context shared

-- The owner of the account adds a key.
adds_key : (add_associated_key environment linked size 8 2 context).1 ≡ ok tt
unfolding add_associated_key calculate_keys_weight validate_readable validate_key linked
    validate_keys
adds_key = refl
