-- ===== src/ApiError/Codes.antt =====
-- The numbers of the errors of execution-engine/types/src/api_error.rs: `i32_from` and `result_from`.
use casper_labs.Base.{◌<◌, ◌≤◌, ◌≡◌, ◌⊎◌, Result, err, ⊤, arith}
use casper_labs.Base.Int.{ℤ}
use casper_labs.ApiError.{
  ApiError, u32_from, i32_from, result_from, result_from_range, from_mint_error, from_pos_error,
}
use casper_labs.Mint.{MintError, error_as_u8}
use casper_labs.Pos.Error.{Error, pos_error_as_u8}

-- The numbers that an error carries fit the widths of their types.
abbrev pub IsSized : Result ApiError ⊤ → Type 0
IsSized (err (ApiError.mint v)) = v < 256
IsSized (err (ApiError.proof_of_stake v)) = v < 256
IsSized (err (ApiError.user v)) = v < 65536
IsSized _ = ⊤

-- A result that is sent as a number and read back is the same result: success, every error that
-- carries nothing, and the errors of the mint, of proof-of-stake and of users with whatever number
-- they carry, as long as it fits its type.
pub result_from-i32_from : (r : Result ApiError ⊤) → IsSized r → result_from (i32_from r) ≡ r
unfolding result_from result_from_range i32_from u32_from
result_from-i32_from r sized = ground arith

-- Reading a number and sending it again returns the number, unless it is read as `Unhandled`; and
-- what is read always fits its type.
pub i32_from-result_from :
    (d : ℤ)
    → IsSized (result_from d)
      × ((result_from d ≡ err ApiError.unhandled) ⊎ (i32_from (result_from d) ≡ d))
unfolding result_from result_from_range i32_from u32_from
i32_from-result_from d = ground arith

mint_error-InRange : (e : MintError) → error_as_u8 e < 255
unfolding error_as_u8
mint_error-InRange e = ground arith

pos_error-InRange : (e : Error) → pos_error_as_u8 e < 255
unfolding pos_error_as_u8
pos_error-InRange e = ground arith

-- Every error of the mint has a number from 65,024 to 65,279 and every error of proof-of-stake one
-- from 65,280 to 65,535, and each is read back from its number.
pub system_errors-returned :
    ((e : MintError)
      → (result_from (i32_from (err (from_mint_error e))) ≡ err (from_mint_error e))
        × (65024 ≤ u32_from (from_mint_error e))
        × (u32_from (from_mint_error e) ≤ 65279))
    × ((e : Error)
        → (result_from (i32_from (err (from_pos_error e))) ≡ err (from_pos_error e))
          × (65280 ≤ u32_from (from_pos_error e))
          × (u32_from (from_pos_error e) ≤ 65535))
unfolding u32_from
system_errors-returned = (
  λ e.
      let sized = mint_error-InRange e in
      (result_from-i32_from (err (from_mint_error e)) (ground arith), ground arith, ground arith),
  λ e.
      let sized = pos_error-InRange e in
      (result_from-i32_from (err (from_pos_error e)) (ground arith), ground arith, ground arith),
)
