-- ===== src/Mint/Codes.antt =====
-- The codes of the errors of execution-engine/types/src/system_contract_errors/mint.rs.
use casper_labs.Base.{ℕ, ◌≡◌, ◌≢◌, ◌↔◌, ok, arith}
use casper_labs.Mint.{MintError, storage_error, purse_not_found, error_as_u8, error_try_from}

-- A code decodes to an error exactly if it is the error's code and the error is neither
-- `storage_error` nor `purse_not_found`: these two are encoded and never decoded.
pub mint_error_codes :
    (e : MintError) (d : ℕ)
    → (error_try_from d ≡ ok e)
      ↔ ((d ≡ error_as_u8 e) × (e ≢ storage_error) × (e ≢ purse_not_found))
unfolding error_try_from
mint_error_codes e d = ground arith
