-- ===== src/Mint/Tests.antt =====
-- The mint over the storage in memory, at concrete inputs.
use casper_labs.Base.{ℕ, ◌≡◌, ◌≢◌, ◌↔◌, ◌⊎◌, refl, none, some, ok, err, ◌==◌, if◌then◌else◌}
use casper_labs.Types.{uref, URef, new_uref, read_add_write, is_writeable, is_addable}
use casper_labs.Mint.{
  mint, balance, transfer, check_transfer, system_account, error_as_u8, error_try_from,
  storage_error, purse_not_found, invalid_access_rights, insufficient_funds,
}
use casper_labs.Mint.Codes.{mint_error_codes}
use casper_labs.Mint.Store.{Store, store_provider, store_runtime, mint-balance}

-- Purses 10 and 11 hold their balances, 50 and 7, at 20 and 21.
abbrev two_purses : Store
two_purses = record {
  values = λ a. if a == 20 then some 50 else if a == 21 then some 7 else none;
  locals = λ a.
      if a == 10
      then some (uref (new_uref 20 read_add_write))
      else if a == 11
      then some (uref (new_uref 21 read_add_write))
      else none;
  next = 30;
  caller = 0;
}

abbrev owned : ℕ → URef
owned a = new_uref a read_add_write

-- Rights to read and add do not do for the source; and 51 is too much.
refusals :
    ((transfer store_runtime store_provider (new_uref 10 5) (owned 11) 5 two_purses).1
      ≡ err invalid_access_rights)
    × ((transfer store_runtime store_provider (owned 10) (owned 11) 51 two_purses).1
        ≡ err insufficient_funds)
unfolding transfer check_transfer store_provider is_writeable is_addable
refusals = (refl, refl)

mint_error_codes_example : (error_try_from 6 ≡ ok storage_error) ↔ (
    (6 ≡ error_as_u8 storage_error)
    × (storage_error ≢ storage_error)
    × (storage_error ≢ purse_not_found))
mint_error_codes_example = mint_error_codes storage_error 6

mint-balance_example :
    ((◌≡◌ {A = ℕ} 9 0) ⊎ (two_purses.caller ≡ system_account))
    × (balance store_runtime store_provider
          (owned 31)
          (mint store_runtime store_provider 9 two_purses).0
        ≡ ok (some 9))
unfolding mint store_provider store_runtime
mint-balance_example = mint-balance 9 (owned 31) two_purses refl
