-- ===== src/Account/Failure.antt =====
-- The action types and the errors of account management, and their numbers in the host interface:
-- execution-engine/types/src/account.rs.
use casper_labs.Base.{ℕ, Result, ok, err, ◌==◌, if◌then◌else◌}
use casper_labs.Base.Int.{ℤ, pos, ◌==ℤ◌}

pub data ActionType : Type 0 where
  deployment key_management : ActionType

pub data TryFromIntError : Type 0 where
  try_from_int_error : TryFromIntError

pub data SetThresholdFailure : Type 0 where
  key_management_threshold_error deployment_threshold_error : SetThresholdFailure
  permission_denied_error insufficient_total_weight : SetThresholdFailure

pub data AddKeyFailure : Type 0 where
  max_keys_limit duplicate_key permission_denied : AddKeyFailure

pub data RemoveKeyFailure : Type 0 where
  missing_key permission_denied threshold_violation : RemoveKeyFailure

pub data UpdateKeyFailure : Type 0 where
  missing_key permission_denied threshold_violation : UpdateKeyFailure

-- `as u32`
unfoldable pub action_type_as_u32 : ActionType → ℕ
action_type_as_u32 ActionType.deployment = 0
action_type_as_u32 ActionType.key_management = 1

-- `TryFrom<u32>`
unfoldable pub action_type_try_from : ℕ → Result TryFromIntError ActionType
unfolding action_type_as_u32
action_type_try_from d =
    if d == action_type_as_u32 ActionType.deployment
    then ok ActionType.deployment
    else if d == action_type_as_u32 ActionType.key_management
    then ok ActionType.key_management
    else err try_from_int_error

-- `as i32`, of each of the four enums
unfoldable pub set_threshold_failure_as_i32 : SetThresholdFailure → ℤ
set_threshold_failure_as_i32 key_management_threshold_error = pos 1
set_threshold_failure_as_i32 deployment_threshold_error = pos 2
set_threshold_failure_as_i32 permission_denied_error = pos 3
set_threshold_failure_as_i32 insufficient_total_weight = pos 4

unfoldable pub add_key_failure_as_i32 : AddKeyFailure → ℤ
add_key_failure_as_i32 AddKeyFailure.max_keys_limit = pos 1
add_key_failure_as_i32 AddKeyFailure.duplicate_key = pos 2
add_key_failure_as_i32 AddKeyFailure.permission_denied = pos 3

unfoldable pub remove_key_failure_as_i32 : RemoveKeyFailure → ℤ
remove_key_failure_as_i32 RemoveKeyFailure.missing_key = pos 1
remove_key_failure_as_i32 RemoveKeyFailure.permission_denied = pos 2
remove_key_failure_as_i32 RemoveKeyFailure.threshold_violation = pos 3

unfoldable pub update_key_failure_as_i32 : UpdateKeyFailure → ℤ
update_key_failure_as_i32 UpdateKeyFailure.missing_key = pos 1
update_key_failure_as_i32 UpdateKeyFailure.permission_denied = pos 2
update_key_failure_as_i32 UpdateKeyFailure.threshold_violation = pos 3

-- `TryFrom<i32>`, of each of the four enums
unfoldable pub set_threshold_failure_try_from : ℤ → Result TryFromIntError SetThresholdFailure
unfolding set_threshold_failure_as_i32
set_threshold_failure_try_from d =
    if d ==ℤ set_threshold_failure_as_i32 key_management_threshold_error
    then ok key_management_threshold_error
    else if d ==ℤ set_threshold_failure_as_i32 deployment_threshold_error
    then ok deployment_threshold_error
    else if d ==ℤ set_threshold_failure_as_i32 permission_denied_error
    then ok permission_denied_error
    else if d ==ℤ set_threshold_failure_as_i32 insufficient_total_weight
    then ok insufficient_total_weight
    else err try_from_int_error

unfoldable pub add_key_failure_try_from : ℤ → Result TryFromIntError AddKeyFailure
unfolding add_key_failure_as_i32
add_key_failure_try_from d =
    if d ==ℤ add_key_failure_as_i32 AddKeyFailure.max_keys_limit
    then ok AddKeyFailure.max_keys_limit
    else if d ==ℤ add_key_failure_as_i32 AddKeyFailure.duplicate_key
    then ok AddKeyFailure.duplicate_key
    else if d ==ℤ add_key_failure_as_i32 AddKeyFailure.permission_denied
    then ok AddKeyFailure.permission_denied
    else err try_from_int_error

unfoldable pub remove_key_failure_try_from : ℤ → Result TryFromIntError RemoveKeyFailure
unfolding remove_key_failure_as_i32
remove_key_failure_try_from d =
    if d ==ℤ remove_key_failure_as_i32 RemoveKeyFailure.missing_key
    then ok RemoveKeyFailure.missing_key
    else if d ==ℤ remove_key_failure_as_i32 RemoveKeyFailure.permission_denied
    then ok RemoveKeyFailure.permission_denied
    else if d ==ℤ remove_key_failure_as_i32 RemoveKeyFailure.threshold_violation
    then ok RemoveKeyFailure.threshold_violation
    else err try_from_int_error

unfoldable pub update_key_failure_try_from : ℤ → Result TryFromIntError UpdateKeyFailure
unfolding update_key_failure_as_i32
update_key_failure_try_from d =
    if d ==ℤ update_key_failure_as_i32 UpdateKeyFailure.missing_key
    then ok UpdateKeyFailure.missing_key
    else if d ==ℤ update_key_failure_as_i32 UpdateKeyFailure.permission_denied
    then ok UpdateKeyFailure.permission_denied
    else if d ==ℤ update_key_failure_as_i32 UpdateKeyFailure.threshold_violation
    then ok UpdateKeyFailure.threshold_violation
    else err try_from_int_error
