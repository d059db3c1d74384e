-- ===== src/Account/Codes.antt =====
-- The numbers of the account errors (`TryFrom<u32>` and `TryFrom<i32>` in
-- execution-engine/types/src/account.rs).
use casper_labs.Base.{◌≡◌, ◌↔◌, Result, ok, arith}
use casper_labs.Account.{
  TryFromIntError, action_type_as_u32, action_type_try_from, set_threshold_failure_as_i32,
  set_threshold_failure_try_from, add_key_failure_as_i32, add_key_failure_try_from,
  remove_key_failure_as_i32, remove_key_failure_try_from, update_key_failure_as_i32,
  update_key_failure_try_from,
}

-- A number decodes to a value exactly when it is the number of that value.
abbrev pub Decodes : {C V : Type 0} → (V → C) → (C → Result TryFromIntError V) → Type 0
Decodes {C} {V} code try_from = (v : V) (d : C) → (try_from d ≡ ok v) ↔ (d ≡ code v)

action_type-Decodes : Decodes action_type_as_u32 action_type_try_from
unfolding action_type_try_from
action_type-Decodes v d = ground arith

set_threshold_failure-Decodes : Decodes set_threshold_failure_as_i32 set_threshold_failure_try_from
unfolding set_threshold_failure_try_from
set_threshold_failure-Decodes v d = ground arith

add_key_failure-Decodes : Decodes add_key_failure_as_i32 add_key_failure_try_from
unfolding add_key_failure_try_from
add_key_failure-Decodes v d = ground arith

remove_key_failure-Decodes : Decodes remove_key_failure_as_i32 remove_key_failure_try_from
unfolding remove_key_failure_try_from
remove_key_failure-Decodes v d = ground arith

update_key_failure-Decodes : Decodes update_key_failure_as_i32 update_key_failure_try_from
unfolding update_key_failure_try_from
update_key_failure-Decodes v d = ground arith

-- For the action types and for each of the four error enumerations, `try_from` accepts a number
-- and returns a value exactly when the number is the one that the enumeration gives that value;
-- so every value comes back from its own number, and every other number is refused.
pub account_codes :
    Decodes action_type_as_u32 action_type_try_from
    × Decodes set_threshold_failure_as_i32 set_threshold_failure_try_from
    × Decodes add_key_failure_as_i32 add_key_failure_try_from
    × Decodes remove_key_failure_as_i32 remove_key_failure_try_from
    × Decodes update_key_failure_as_i32 update_key_failure_try_from
account_codes = (
  action_type-Decodes, set_threshold_failure-Decodes, add_key_failure-Decodes,
  remove_key_failure-Decodes, update_key_failure-Decodes,
)
