-- ===== src/Version.antt =====
-- Protocol versions and upgrades: execution-engine/types/src/semver.rs and
-- execution-engine/types/src/protocol_version.rs. The parts of a version are `u32`; an addition
-- wraps around, as in a build for release.
pub mod Order
pub mod Upgrade
mod Tests
use casper_labs.Base.{
  ℕ, ◌+◌, ◌%◌, ◌^◌, Bool, true, false, not, ◌||◌, min, ◌-◌, ltb, leb, ◌==◌, if◌then◌else◌,
}

pub record SemVer : Type 0 where
  pub major : ℕ
  pub minor : ℕ
  pub patch : ℕ

abbrev pub u32_max : ℕ
u32_max = 2 ^ 32 - 1

abbrev pub ProtocolVersion : Type 0
ProtocolVersion = SemVer

abbrev pub from_parts : ℕ → ℕ → ℕ → ProtocolVersion
from_parts major minor patch = record { major = major; minor = minor; patch = patch }

pub data VersionCheckResult : Type 0 where
  code_is_required code_is_optional invalid : VersionCheckResult

unfoldable pub is_invalid : VersionCheckResult → Bool
is_invalid invalid = true
is_invalid code_is_required = false
is_invalid code_is_optional = false

unfoldable pub is_code_required : VersionCheckResult → Bool
is_code_required code_is_required = true
is_code_required _ = false

-- `x + 1` and `x.saturating_add(1)`
abbrev pub wrapping_next : ℕ → ℕ
wrapping_next x = (x + 1) % 2 ^ 32

abbrev pub saturating_next : ℕ → ℕ
saturating_next x = min u32_max (x + 1)

-- The versions agree in their minor parts.
abbrev pub check_patch : ProtocolVersion → ProtocolVersion → VersionCheckResult
check_patch current next = if leb next.patch current.patch then invalid else code_is_optional

-- The versions agree in their major parts.
abbrev pub check_minor : ProtocolVersion → ProtocolVersion → VersionCheckResult
check_minor current next =
    if ltb next.minor current.minor || ltb (wrapping_next current.minor) next.minor
    then invalid
    else if next.minor == wrapping_next current.minor
    then (if not (next.patch == 0) then invalid else code_is_optional)
    else check_patch current next

unfoldable pub check_next_version : ProtocolVersion → ProtocolVersion → VersionCheckResult
check_next_version current next =
    if ltb next.major current.major || ltb (wrapping_next current.major) next.major
    then invalid
    else if next.major == saturating_next current.major
    then (if not (next.minor == 0) || not (next.patch == 0) then invalid else code_is_required)
    else check_minor current next

unfoldable pub is_compatible_with : ProtocolVersion → ProtocolVersion → Bool
is_compatible_with current version = current.major == version.major
