-- ===== src/Version/Tests.antt =====
-- Upgrades between concrete versions.
use casper_labs.Base.{◌+◌, ◌<◌, ◌≡◌, ◌↔◌, ◌⊎◌, refl, arith}
use casper_labs.Version.{
  ProtocolVersion, from_parts, u32_max, code_is_required, code_is_optional, invalid,
  check_next_version,
}
use casper_labs.Version.Order.{Before, NextMajor, NextMinor, LaterPatch, check_next_version-exact}
use casper_labs.Version.Upgrade.{start, requires, allows, Upgrades-Before}

abbrev v1_0_0 : ProtocolVersion
v1_0_0 = from_parts 1 0 0

abbrev v1_1_0 : ProtocolVersion
v1_1_0 = from_parts 1 1 0

abbrev v2_0_0 : ProtocolVersion
v2_0_0 = from_parts 2 0 0

-- After the largest major version there is no other, not even a patch.
last_version : check_next_version (from_parts 4294967295 0 0) (from_parts 4294967295 0 1) ≡ invalid
unfolding check_next_version
last_version = refl

check_next_version-exact_example :
    ((check_next_version v1_0_0 v1_1_0 ≡ code_is_required) ↔ NextMajor v1_0_0 v1_1_0)
    × ((check_next_version v1_0_0 v1_1_0 ≡ code_is_optional) ↔ (
        (v1_0_0.major < u32_max)
        × (v1_0_0.minor < u32_max)
        × (NextMinor v1_0_0 v1_1_0 ⊎ LaterPatch v1_0_0 v1_1_0)))
check_next_version-exact_example =
    check_next_version-exact v1_0_0 v1_1_0 (omega arith) (omega arith)

Upgrades-Before_example :
    (v2_0_0.major ≡ v1_0_0.major + 1) × ((v2_0_0 ≡ v1_0_0) ⊎ Before v1_0_0 v2_0_0)
unfolding check_next_version
Upgrades-Before_example = Upgrades-Before {v = v1_0_0} {w = v2_0_0} {n = 1} (omega arith) (
    requires {u = v1_1_0} {w = v2_0_0} {n = 0}
      (allows {u = v1_0_0} {w = v1_1_0} start (omega arith) refl) (omega arith) refl)
