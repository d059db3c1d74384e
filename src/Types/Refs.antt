-- ===== src/Types/Refs.antt =====
-- The unforgeable references of execution-engine/types/src/uref.rs.
use casper_labs.Base.{ℕ, Bool, false, Option, none, some}
use casper_labs.Types.Flags.{
  AccessRights, read, read_add_write, rights_is_readable, rights_is_writeable, rights_is_addable,
}

abbrev pub Address : Type 0
Address = ℕ

pub record URef : Type 0 where
  pub addr : Address
  pub access_rights : Option AccessRights

abbrev pub new_uref : Address → AccessRights → URef
new_uref id access_rights = record { addr = id; access_rights = some access_rights }

abbrev pub with_access_rights : AccessRights → URef → URef
with_access_rights access_rights u = record u { access_rights = some access_rights }

abbrev pub remove_access_rights : URef → URef
remove_access_rights u = record u { access_rights = none }

abbrev pub into_read : URef → URef
into_read u = record u { access_rights = some read }

abbrev pub into_read_add_write : URef → URef
into_read_add_write u = record u { access_rights = some read_add_write }

unfoldable pub is_readable : URef → Bool
unfolding rights_is_readable
is_readable u = elim u.access_rights [ some r ↦ rights_is_readable r | none ↦ false ]

unfoldable pub is_writeable : URef → Bool
unfolding rights_is_writeable
is_writeable u = elim u.access_rights [ some r ↦ rights_is_writeable r | none ↦ false ]

unfoldable pub is_addable : URef → Bool
unfolding rights_is_addable
is_addable u = elim u.access_rights [ some r ↦ rights_is_addable r | none ↦ false ]
