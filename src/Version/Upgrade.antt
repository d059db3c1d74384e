-- ===== src/Version/Upgrade.antt =====
-- Sequences of upgrades, each accepted by `ProtocolVersion::check_next_version` of
-- execution-engine/types/src/protocol_version.rs.
use casper_labs.Base.{ℕ, ◌+◌, ◌≡◌, ◌⊎◌, refl, inl, arith}
use casper_labs.Version.{ProtocolVersion, code_is_required, code_is_optional, check_next_version}
use casper_labs.Version.Order.{InRange, Before, check_next_version-exact}

-- The number of upgrades along the way for which code was required.
pub data Upgrades (v : ProtocolVersion) : ProtocolVersion → ℕ → Type 0 where
  start : Upgrades v v 0
  requires :
      {u w : ProtocolVersion} {n : ℕ}
      → Upgrades v u n
      → InRange w
      → check_next_version u w ≡ code_is_required
      → Upgrades v w (n + 1)
  allows :
      {u w : ProtocolVersion} {n : ℕ}
      → Upgrades v u n
      → InRange w
      → check_next_version u w ≡ code_is_optional
      → Upgrades v w n

Upgrades-InRange : {v w : ProtocolVersion} {n : ℕ} → InRange v → Upgrades v w n → InRange w
Upgrades-InRange r start = r
Upgrades-InRange r (requires us x e) = x
Upgrades-InRange r (allows us x e) = x

-- Along every sequence of accepted upgrades the major part grows by the number of upgrades for
-- which code was required, and the version at the end is later than the one at the start, or is
-- the start itself.
pub Upgrades-Before :
    {v w : ProtocolVersion} {n : ℕ}
    → InRange v
    → Upgrades v w n
    → (w.major ≡ v.major + n) × ((w ≡ v) ⊎ Before v w)
Upgrades-Before r start = (omega arith, inl refl)
Upgrades-Before {v} {w} r (requires {u} us x e) =
    ground (arith, Upgrades-Before r us, check_next_version-exact u w (Upgrades-InRange r us) x)
Upgrades-Before {v} {w} r (allows {u} us x e) =
    ground (arith, Upgrades-Before r us, check_next_version-exact u w (Upgrades-InRange r us) x)
