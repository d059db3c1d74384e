-- ===== src/Types/Flags.antt =====
-- The flags of execution-engine/types/src/access_rights.rs, as their bits.
use Prim.Native.Nat.{bit_and, bit_or}
use casper_labs.Base.{ℕ, Bool, ◌==◌}

abbrev pub AccessRights : Type 0
AccessRights = ℕ

abbrev pub read : AccessRights
read = 0b001

abbrev pub write : AccessRights
write = 0b010

abbrev pub add : AccessRights
add = 0b100

abbrev pub read_add : AccessRights
read_add = bit_or read add

abbrev pub read_write : AccessRights
read_write = bit_or read write

abbrev pub add_write : AccessRights
add_write = bit_or add write

abbrev pub read_add_write : AccessRights
read_add_write = bit_or (bit_or read add) write

-- `self & flag == flag`
abbrev pub contains_flag : AccessRights → AccessRights → Bool
contains_flag r flag = bit_and r flag == flag

unfoldable pub rights_is_readable : AccessRights → Bool
rights_is_readable r = contains_flag r read

unfoldable pub rights_is_writeable : AccessRights → Bool
rights_is_writeable r = contains_flag r write

unfoldable pub rights_is_addable : AccessRights → Bool
rights_is_addable r = contains_flag r add
