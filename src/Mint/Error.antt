-- ===== src/Mint/Error.antt =====
-- The errors of execution-engine/types/src/system_contract_errors/mint.rs, and their codes.
use casper_labs.Base.{ℕ, Result, ok, err, ⊤, ◌==◌, if◌then◌else◌}

pub data MintError : Type 0 where
  insufficient_funds source_not_found dest_not_found invalid_uref : MintError
  invalid_access_rights invalid_non_empty_purse_creation : MintError
  storage_error purse_not_found missing_argument invalid_argument : MintError

-- `as u8`
unfoldable pub error_as_u8 : MintError → ℕ
error_as_u8 insufficient_funds = 0
error_as_u8 source_not_found = 1
error_as_u8 dest_not_found = 2
error_as_u8 invalid_uref = 3
error_as_u8 invalid_access_rights = 4
error_as_u8 invalid_non_empty_purse_creation = 5
error_as_u8 storage_error = 6
error_as_u8 purse_not_found = 7
error_as_u8 missing_argument = 102
error_as_u8 invalid_argument = 103

-- `TryFrom<u8>`; the error carries nothing.
unfoldable pub error_try_from : ℕ → Result ⊤ MintError
unfolding error_as_u8
error_try_from d =
    if d == error_as_u8 insufficient_funds
    then ok insufficient_funds
    else if d == error_as_u8 source_not_found
    then ok source_not_found
    else if d == error_as_u8 dest_not_found
    then ok dest_not_found
    else if d == error_as_u8 invalid_uref
    then ok invalid_uref
    else if d == error_as_u8 invalid_access_rights
    then ok invalid_access_rights
    else if d == error_as_u8 missing_argument
    then ok missing_argument
    else if d == error_as_u8 invalid_argument
    then ok invalid_argument
    else if d == error_as_u8 invalid_non_empty_purse_creation
    then ok invalid_non_empty_purse_creation
    else err tt
