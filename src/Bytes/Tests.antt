-- ===== src/Bytes/Tests.antt =====
-- Encodings at concrete inputs.
use casper_labs.Base.{ℕ, ◌≤◌, ◌≡◌, refl, some, [], ◌∷◌, ◌++◌, length, ok, err, arith}
use casper_labs.Types.{URef, uref}
use casper_labs.Account.{Account}
use casper_labs.Pos.Queue.{Queue}
use casper_labs.Bytes.{Bytes}
use casper_labs.Bytes.Numbers.{array_codec, u8_codec, uint_codec, fixed_codec}
use casper_labs.Bytes.Integers.{u8_codec-RoundTrips}
use casper_labs.Bytes.Containers.{option_codec, btree_codec}
use casper_labs.Bytes.Shared.{key_codec, uref_codec, access_rights_codec}
use casper_labs.Bytes.SharedLaws.{key_codec_total}
use casper_labs.Bytes.Accounts.{action_thresholds_codec, account_to_bytes, account_from_bytes}
use casper_labs.Bytes.AccountLaws.{AccountInRange, account_from_bytes-account_to_bytes}
use casper_labs.Bytes.Queues.{queue_entry_codec, queue_codec, queue_codec_round_trip}

abbrev purse : URef
purse = record { addr = 5; access_rights = some 7 }

key_codec_total_example :
    (bytes : Bytes) × (key_codec.to_bytes (uref purse) ≡ ok bytes)
    × (length bytes ≤ 35)
    × (key_codec.from_bytes (bytes ++ 9 ∷ []) ≡ ok (uref purse, 9 ∷ []))
key_codec_total_example = key_codec_total (uref purse) (9 ∷ []) (omega arith, omega arith)

-- An account with two keys, where the named keys stand as a byte
abbrev pair : Account ℕ URef
pair = record {
  public_key = 1;
  named_keys = 4;
  purse_id = purse;
  associated_keys = (1, 1) ∷ (2, 3) ∷ [];
  action_thresholds = record { deployment = 1; key_management = 2 };
}

abbrev pair_bytes : Bytes
pair_bytes = elim (account_to_bytes u8_codec (λ _. 0) pair) [ ok bytes ↦ bytes | err _ ↦ [] ]

pair-AccountInRange : AccountInRange u8_codec u8_codec-RoundTrips (λ _. 0) pair
pair-AccountInRange = record {
  address = omega arith;
  names = tt;
  purse = (omega arith, omega arith);
  keys_in_range = ((omega arith, (omega arith, tt)), ((omega arith, tt), (tt, tt)), omega arith);
}

account_from_bytes-account_to_bytes_example :
    account_from_bytes u8_codec (λ _. 0) (pair_bytes ++ 9 ∷ []) ≡ some (ok (pair, 9 ∷ []))
unfolding account_to_bytes array_codec u8_codec uref_codec option_codec access_rights_codec
    btree_codec fixed_codec action_thresholds_codec
account_from_bytes-account_to_bytes_example =
    account_from_bytes-account_to_bytes u8_codec u8_codec-RoundTrips (λ _. 0) pair pair_bytes
      (9 ∷ []) pair-AccountInRange refl

abbrev requests : Queue
requests =
    record { validator = 1; amount = 300; timestamp = 5 }
    ∷ record { validator = 2; amount = 0; timestamp = 6 }
    ∷ []

abbrev requests_bytes : Bytes
requests_bytes = elim (queue_codec.to_bytes requests) [ ok bytes ↦ bytes | err _ ↦ [] ]

queue_codec_round_trip_example : queue_codec.from_bytes (requests_bytes ++ []) ≡ ok (requests, [])
unfolding queue_codec queue_entry_codec array_codec uint_codec fixed_codec
queue_codec_round_trip_example =
    queue_codec_round_trip requests requests_bytes []
      (
        ((omega arith, omega arith, omega arith), ((omega arith, omega arith, omega arith), tt)),
        omega arith,
      )
      refl
