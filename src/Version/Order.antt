-- ===== src/Version/Order.antt =====
-- The order that `SemVer` derives, and which versions may follow which:
-- `ProtocolVersion::check_next_version` of execution-engine/types/src/protocol_version.rs.
use casper_labs.Base.{◌+◌, ◌≤◌, ◌<◌, ◌≡◌, ◌↔◌, ◌⊎◌, arith}
use casper_labs.Version.{
  SemVer, ProtocolVersion, code_is_required, code_is_optional, u32_max, check_next_version,
}

-- The parts are `u32`.
abbrev pub InRange : ProtocolVersion → Type 0
InRange v = (v.major ≤ u32_max) × (v.minor ≤ u32_max) × (v.patch ≤ u32_max)

-- The lexicographic order of the parts.
abbrev pub Before : SemVer → SemVer → Type 0
Before v w =
    (v.major < w.major)
    ⊎ (v.major ≡ w.major) × ((v.minor < w.minor) ⊎ (v.minor ≡ w.minor) × (v.patch < w.patch))

pub Before-trans : (u v w : SemVer) → Before u v → Before v w → Before u w
Before-trans u v w a b = ground arith

-- The next major version, the next minor version, and a later patch.
abbrev pub NextMajor : SemVer → SemVer → Type 0
NextMajor v w = (w.major ≡ v.major + 1) × (w.minor ≡ 0) × (w.patch ≡ 0)

abbrev pub NextMinor : SemVer → SemVer → Type 0
NextMinor v w = (w.major ≡ v.major) × (w.minor ≡ v.minor + 1) × (w.patch ≡ 0)

abbrev pub LaterPatch : SemVer → SemVer → Type 0
LaterPatch v w = (w.major ≡ v.major) × (w.minor ≡ v.minor) × (v.patch < w.patch)

-- Code is required exactly for the next major version. Code is optional exactly for the next minor
-- version and for a later patch, provided that neither the major part, nor for a patch the minor
-- part, is the largest `u32`: such a version has no successor.
pub check_next_version-exact :
    (v w : ProtocolVersion)
    → InRange v
    → InRange w
    → ((check_next_version v w ≡ code_is_required) ↔ NextMajor v w)
      × ((check_next_version v w ≡ code_is_optional)
          ↔ ((v.major < u32_max) × (v.minor < u32_max) × (NextMinor v w ⊎ LaterPatch v w)))
unfolding check_next_version
check_next_version-exact v w a b = ground arith
