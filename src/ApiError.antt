-- ===== src/ApiError.antt =====
-- The errors of execution-engine/types/src/api_error.rs, and their numbers in the host interface. The
-- conversions from a `CLValueError` and from the failure to read a public key are left out.
use casper_labs.Base.{ℕ, ◌+◌, ◌-◌, ◌*◌, ◌%◌, Result, ok, err, ⊤, Bool, ◌&&◌, if◌then◌else◌}
use casper_labs.Base.Int.{ℤ, pos, negsuc, ◌==ℤ◌, ◌<ℤ◌, ◌<=ℤ◌, ◌>=ℤ◌, ◌>ℤ◌}
use casper_labs.Account.{
  TryFromIntError, SetThresholdFailure, AddKeyFailure, RemoveKeyFailure, UpdateKeyFailure,
}
use casper_labs.Mint.{MintError, error_as_u8}
use casper_labs.Pos.Error.{Error, pos_error_as_u8}
use casper_labs.Values.{BytesreprError}
pub mod Codes
pub mod Tests

abbrev pub reserved_error_max : ℕ
reserved_error_max = 65535

abbrev pub pos_error_offset : ℕ
pos_error_offset = reserved_error_max - 255

abbrev pub mint_error_offset : ℕ
mint_error_offset = (pos_error_offset - 1) - 255

pub data ApiError : Type 0 where
  none missing_argument invalid_argument : ApiError
  deserialize read value_not_found : ApiError
  contract_not_found get_key unexpected_key_variant : ApiError
  unexpected_value_variant unexpected_contract_ref_variant invalid_purse_name : ApiError
  invalid_purse upgrade_contract_at_u_ref transfer : ApiError
  no_access_rights value_conversion cl_type_mismatch : ApiError
  early_end_of_stream formatting_error left_over_bytes : ApiError
  out_of_memory_error max_keys_limit duplicate_key : ApiError
  permission_denied missing_key threshold_violation : ApiError
  key_management_threshold_error deployment_threshold_error permission_denied_error : ApiError
  insufficient_total_weight invalid_system_contract purse_not_created : ApiError
  unhandled buffer_too_small host_buffer_empty : ApiError
  host_buffer_full : ApiError
  mint proof_of_stake : ℕ → ApiError
  user : ℕ → ApiError

-- `From<AddKeyFailure>`, and the like for the other types of errors
abbrev pub from_add_key_failure : AddKeyFailure → ApiError
from_add_key_failure AddKeyFailure.max_keys_limit = ApiError.max_keys_limit
from_add_key_failure AddKeyFailure.duplicate_key = ApiError.duplicate_key
from_add_key_failure AddKeyFailure.permission_denied = ApiError.permission_denied

abbrev pub from_update_key_failure : UpdateKeyFailure → ApiError
from_update_key_failure UpdateKeyFailure.missing_key = ApiError.missing_key
from_update_key_failure UpdateKeyFailure.permission_denied = ApiError.permission_denied
from_update_key_failure UpdateKeyFailure.threshold_violation = ApiError.threshold_violation

abbrev pub from_remove_key_failure : RemoveKeyFailure → ApiError
from_remove_key_failure RemoveKeyFailure.missing_key = ApiError.missing_key
from_remove_key_failure RemoveKeyFailure.permission_denied = ApiError.permission_denied
from_remove_key_failure RemoveKeyFailure.threshold_violation = ApiError.threshold_violation

abbrev pub from_set_threshold_failure : SetThresholdFailure → ApiError
from_set_threshold_failure SetThresholdFailure.key_management_threshold_error =
    ApiError.key_management_threshold_error
from_set_threshold_failure SetThresholdFailure.deployment_threshold_error =
    ApiError.deployment_threshold_error
from_set_threshold_failure SetThresholdFailure.permission_denied_error =
    ApiError.permission_denied_error
from_set_threshold_failure SetThresholdFailure.insufficient_total_weight =
    ApiError.insufficient_total_weight

abbrev pub from_mint_error : MintError → ApiError
from_mint_error e = mint (error_as_u8 e)

abbrev pub from_pos_error : Error → ApiError
from_pos_error e = proof_of_stake (pos_error_as_u8 e)

abbrev pub from_try_from_int_error : TryFromIntError → ApiError
from_try_from_int_error _ = unhandled

abbrev pub from_bytesrepr_error : BytesreprError → ApiError
from_bytesrepr_error BytesreprError.early_end_of_stream = ApiError.early_end_of_stream
from_bytesrepr_error BytesreprError.formatting_error = ApiError.formatting_error
from_bytesrepr_error BytesreprError.left_over_bytes = ApiError.left_over_bytes
from_bytesrepr_error BytesreprError.out_of_memory_error = ApiError.out_of_memory_error

-- `From<ApiError> for u32`
pub u32_from : ApiError → ℕ
u32_from none = 1
u32_from missing_argument = 2
u32_from invalid_argument = 3
u32_from deserialize = 4
u32_from read = 5
u32_from value_not_found = 6
u32_from contract_not_found = 7
u32_from get_key = 8
u32_from unexpected_key_variant = 9
u32_from unexpected_value_variant = 10
u32_from unexpected_contract_ref_variant = 11
u32_from invalid_purse_name = 12
u32_from invalid_purse = 13
u32_from upgrade_contract_at_u_ref = 14
u32_from transfer = 15
u32_from no_access_rights = 16
u32_from value_conversion = 17
u32_from cl_type_mismatch = 18
u32_from early_end_of_stream = 19
u32_from formatting_error = 20
u32_from left_over_bytes = 21
u32_from out_of_memory_error = 22
u32_from max_keys_limit = 23
u32_from duplicate_key = 24
u32_from permission_denied = 25
u32_from missing_key = 26
u32_from threshold_violation = 27
u32_from key_management_threshold_error = 28
u32_from deployment_threshold_error = 29
u32_from permission_denied_error = 30
u32_from insufficient_total_weight = 31
u32_from invalid_system_contract = 32
u32_from purse_not_created = 33
u32_from unhandled = 34
u32_from buffer_too_small = 35
u32_from host_buffer_empty = 36
u32_from host_buffer_full = 37
u32_from (mint value) = mint_error_offset + value
u32_from (proof_of_stake value) = pos_error_offset + value
u32_from (user value) = reserved_error_max + 1 + value

pub i32_from : Result ApiError ⊤ → ℤ
i32_from (ok _) = pos 0
i32_from (err error) = pos (u32_from error)

-- `as u16` and `as u8` of an `i32` keep the low bits.
abbrev low_bits : ℕ → ℤ → ℕ
low_bits m (pos n) = n % m
low_bits m (negsuc n) = (m - 1) - n % m

-- The last arm of `result_from`
pub result_from_range : ℤ → Result ApiError ⊤
result_from_range value =
    if (value >ℤ pos reserved_error_max) && (value <=ℤ pos (2 * reserved_error_max + 1))
    then err (user (low_bits 65536 value))
    else if (value >=ℤ pos pos_error_offset) && (value <=ℤ pos reserved_error_max)
    then err (proof_of_stake (low_bits 256 value))
    else if (value >=ℤ pos mint_error_offset) && (value <ℤ pos pos_error_offset)
    then err (mint (low_bits 256 value))
    else err unhandled

pub result_from : ℤ → Result ApiError ⊤
result_from value =
    if value ==ℤ pos 0
    then ok tt
    else if value ==ℤ pos 1
    then err none
    else if value ==ℤ pos 2
    then err missing_argument
    else if value ==ℤ pos 3
    then err invalid_argument
    else if value ==ℤ pos 4
    then err deserialize
    else if value ==ℤ pos 5
    then err read
    else if value ==ℤ pos 6
    then err value_not_found
    else if value ==ℤ pos 7
    then err contract_not_found
    else if value ==ℤ pos 8
    then err get_key
    else if value ==ℤ pos 9
    then err unexpected_key_variant
    else if value ==ℤ pos 10
    then err unexpected_value_variant
    else if value ==ℤ pos 11
    then err unexpected_contract_ref_variant
    else if value ==ℤ pos 12
    then err invalid_purse_name
    else if value ==ℤ pos 13
    then err invalid_purse
    else if value ==ℤ pos 14
    then err upgrade_contract_at_u_ref
    else if value ==ℤ pos 15
    then err transfer
    else if value ==ℤ pos 16
    then err no_access_rights
    else if value ==ℤ pos 17
    then err value_conversion
    else if value ==ℤ pos 18
    then err cl_type_mismatch
    else if value ==ℤ pos 19
    then err early_end_of_stream
    else if value ==ℤ pos 20
    then err formatting_error
    else if value ==ℤ pos 21
    then err left_over_bytes
    else if value ==ℤ pos 22
    then err out_of_memory_error
    else if value ==ℤ pos 23
    then err max_keys_limit
    else if value ==ℤ pos 24
    then err duplicate_key
    else if value ==ℤ pos 25
    then err permission_denied
    else if value ==ℤ pos 26
    then err missing_key
    else if value ==ℤ pos 27
    then err threshold_violation
    else if value ==ℤ pos 28
    then err key_management_threshold_error
    else if value ==ℤ pos 29
    then err deployment_threshold_error
    else if value ==ℤ pos 30
    then err permission_denied_error
    else if value ==ℤ pos 31
    then err insufficient_total_weight
    else if value ==ℤ pos 32
    then err invalid_system_contract
    else if value ==ℤ pos 33
    then err purse_not_created
    else if value ==ℤ pos 34
    then err unhandled
    else if value ==ℤ pos 35
    then err buffer_too_small
    else if value ==ℤ pos 36
    then err host_buffer_empty
    else if value ==ℤ pos 37
    then err host_buffer_full
    else result_from_range value
