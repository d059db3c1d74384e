-- ===== src/Values.antt =====
-- What the global state stores: execution-engine/engine-shared/src/stored_value.rs and
-- execution-engine/engine-shared/src/contract.rs, with the integral types of
-- execution-engine/types/src/cl_type.rs.
mod Numbers
unfoldable pub use Numbers.*
use Prim.Native.String.{String}
use casper_labs.Base.{ℕ, Option, none, some, List, Result, ok, err}
use casper_labs.Types.{Key, PurseId}
use casper_labs.Account.{Account}
use casper_labs.Version.{ProtocolVersion}

pub data BytesreprError : Type 0 where
  early_end_of_stream formatting_error left_over_bytes out_of_memory_error : BytesreprError

-- A `BTreeMap<String, Key>`, as what it holds under each name.
abbrev pub NamedKeys : Type 0
NamedKeys = String → Option Key

-- The entry of the second map under a name, or else that of the first.
abbrev pub prefer : Option Key → Option Key → Option Key
prefer old none = old
prefer old (some key) = some key

-- `BTreeMap::append`: the entries of the second map replace those of the first.
abbrev pub append : NamedKeys → NamedKeys → NamedKeys
append keys more = λ name. prefer (keys name) (more name)

-- A value of an integral type; bytes under an integral type that decode to no value of it; and a
-- value `v : V` of any other type.
pub data ClValue (V : Type 0) : Type 0 where
  number : NumType → ℕ → ClValue V
  broken : NumType → BytesreprError → ClValue V
  other : V → ClValue V

pub record Contract : Type 0 where
  pub bytes : List ℕ
  pub named_keys : NamedKeys
  pub protocol_version : ProtocolVersion

pub data StoredValue (V : Type 0) : Type 0 where
  cl_value : ClValue V → StoredValue V
  account : Account NamedKeys PurseId → StoredValue V
  contract : Contract → StoredValue V

abbrev pub account_append : NamedKeys → Account NamedKeys PurseId → Account NamedKeys PurseId
account_append keys a = record a { named_keys = append a.named_keys keys }

abbrev pub contract_append : NamedKeys → Contract → Contract
contract_append keys c = record c { named_keys = append c.named_keys keys }
