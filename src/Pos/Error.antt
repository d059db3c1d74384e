-- ===== src/Pos/Error.antt =====
-- The errors of execution-engine/types/src/system_contract_errors/pos.rs.
use casper_labs.Base.{ℕ, Option, none, some, Result, ok, err}

pub data Error : Type 0 where
  not_bonded too_many_events_in_queue cannot_unbond_last_validator spread_too_high : Error
  multiple_requests bond_too_small bond_too_large unbond_too_large : Error
  bond_transfer_failed unbond_transfer_failed missing_argument invalid_argument : Error
  time_went_backwards stakes_not_found : Error
  payment_purse_not_found payment_purse_key_unexpected_type : Error
  payment_purse_balance_not_found bonding_purse_not_found : Error
  bonding_purse_key_unexpected_type refund_purse_key_unexpected_type : Error
  rewards_purse_not_found rewards_purse_key_unexpected_type : Error
  queue_not_stored_as_byte_array queue_deserialization_failed : Error
  queue_deserialization_extra_bytes stakes_key_deserialization_failed : Error
  stakes_deserialization_failed system_function_called_by_user_account : Error
  insufficient_payment_for_amount_spent failed_transfer_to_rewards_purse : Error
  failed_transfer_to_account_purse set_refund_purse_called_outside_payment : Error

-- `as u8`
unfoldable pub pos_error_as_u8 : Error → ℕ
pos_error_as_u8 not_bonded = 0
pos_error_as_u8 too_many_events_in_queue = 1
pos_error_as_u8 cannot_unbond_last_validator = 2
pos_error_as_u8 spread_too_high = 3
pos_error_as_u8 multiple_requests = 4
pos_error_as_u8 bond_too_small = 5
pos_error_as_u8 bond_too_large = 6
pos_error_as_u8 unbond_too_large = 7
pos_error_as_u8 bond_transfer_failed = 8
pos_error_as_u8 unbond_transfer_failed = 9
pos_error_as_u8 missing_argument = 10
pos_error_as_u8 invalid_argument = 11
pos_error_as_u8 time_went_backwards = 12
pos_error_as_u8 stakes_not_found = 13
pos_error_as_u8 payment_purse_not_found = 14
pos_error_as_u8 payment_purse_key_unexpected_type = 15
pos_error_as_u8 payment_purse_balance_not_found = 16
pos_error_as_u8 bonding_purse_not_found = 17
pos_error_as_u8 bonding_purse_key_unexpected_type = 18
pos_error_as_u8 refund_purse_key_unexpected_type = 19
pos_error_as_u8 rewards_purse_not_found = 20
pos_error_as_u8 rewards_purse_key_unexpected_type = 21
pos_error_as_u8 queue_not_stored_as_byte_array = 22
pos_error_as_u8 queue_deserialization_failed = 23
pos_error_as_u8 queue_deserialization_extra_bytes = 24
pos_error_as_u8 stakes_key_deserialization_failed = 25
pos_error_as_u8 stakes_deserialization_failed = 26
pos_error_as_u8 system_function_called_by_user_account = 27
pos_error_as_u8 insufficient_payment_for_amount_spent = 28
pos_error_as_u8 failed_transfer_to_rewards_purse = 29
pos_error_as_u8 failed_transfer_to_account_purse = 30
pos_error_as_u8 set_refund_purse_called_outside_payment = 31

pub data PurseLookupError : Type 0 where
  key_not_found key_unexpected_type : PurseLookupError

abbrev pub bonding : PurseLookupError → Error
bonding key_not_found = bonding_purse_not_found
bonding key_unexpected_type = bonding_purse_key_unexpected_type

abbrev pub payment : PurseLookupError → Error
payment key_not_found = payment_purse_not_found
payment key_unexpected_type = payment_purse_key_unexpected_type

abbrev pub rewards : PurseLookupError → Error
rewards key_not_found = rewards_purse_not_found
rewards key_unexpected_type = rewards_purse_key_unexpected_type

-- How a call of the contract may fail: by an error value, or by a panic in its arithmetic.
pub data Trap : Type 0 where
  failed : Error → Trap
  panicked : Trap

abbrev pub or_panic : {A : Type 0} → Option A → Result Trap A
or_panic (some a) = ok a
or_panic none = err panicked

abbrev pub fail : {A : Type 0} → Error → Result Trap A
fail e = err (failed e)
