-- ===== src/Types/Keys.antt =====
-- The keys of execution-engine/types/src/key.rs, and `PurseId` of
-- execution-engine/types/src/account.rs.
use casper_labs.Base.{Option, none, some}
use casper_labs.Types.Refs.{Address, URef, remove_access_rights}

pub data Key : Type 0 where
  account : Address → Key
  hash : Address → Key
  uref : URef → Key
  local : Address → Key

-- `PurseId(URef)`
abbrev pub PurseId : Type 0
PurseId = URef

unfoldable pub normalize : Key → Key
normalize (uref u) = uref (remove_access_rights u)
normalize (account a) = account a
normalize (hash a) = hash a
normalize (local a) = local a

unfoldable pub into_uref : Key → Option URef
into_uref (uref u) = some u
into_uref (account _) = none
into_uref (hash _) = none
into_uref (local _) = none
