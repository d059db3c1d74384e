-- ===== src/ApiError/Tests.antt =====
-- The numbers of errors at concrete values.
use casper_labs.Base.{◌≡◌, refl}
use casper_labs.ApiError.{ApiError, u32_from}

mint_code : u32_from (ApiError.mint 255) ≡ 65279
unfolding u32_from
mint_code = refl

user_code : u32_from (ApiError.user 65535) ≡ 131071
unfolding u32_from
user_code = refl
