-- ===== src/Context/Rights.antt =====
-- Which references a context of execution-engine/engine-core/src/runtime_context/mod.rs accepts.
use Prim.Native.Nat.{bit_and}
use casper_labs.Base.{
  ℕ, ◌≡◌, refl, Bool, true, false, Bool-cases, ◌&&◌, inl, inr, ◌⊎◌, ◌↔◌, Option, none, some, List,
  [], ◌∷◌, ⊤, ok, err, arith, ◌==◌, if◌then◌else◌,
}
use casper_labs.BtreeMap.{get}
use casper_labs.Types.{AccessRights, URef}
use casper_labs.Context.{
  RuntimeContext, forged_reference, any_covers, is_known, rights_match, validate_uref,
}

-- One of the sets contains the rights.
abbrev pub Covered : AccessRights → List AccessRights → Type 0
Covered new_rights [] = ⊥
Covered new_rights (right ∷ rights) =
    (bit_and right new_rights ≡ new_rights) ⊎ Covered new_rights rights

-- What a context knows of an address grants the rights that are asked for, if any are.
abbrev pub Grants : Option (List AccessRights) → Option AccessRights → Type 0
Grants none asked = ⊥
Grants (some known) none = ⊤
Grants (some known) (some asked) = Covered asked known

-- The first rights are there and contain the second, which are there.
abbrev pub Within : Option AccessRights → Option AccessRights → Type 0
Within (some held) (some asked) = bit_and held asked ≡ asked
Within _ _ = ⊥

any_covers-Covered :
    (r : AccessRights) (rs : List AccessRights) → any_covers r rs ≡ true → Covered r rs
unfolding any_covers
any_covers-Covered r [] h = absurd (ground (arith, h))
any_covers-Covered r (s ∷ rs) h = elim (Bool-cases (bit_and s r == r)) [
  | inl e ↦ inl (ground (arith, e))
  | inr e ↦ inr (any_covers-Covered r rs (ground (arith, h, e)))
]

Covered-any_covers :
    (r : AccessRights) (rs : List AccessRights) → Covered r rs → any_covers r rs ≡ true
unfolding any_covers
Covered-any_covers r [] c = elim c [ ]
Covered-any_covers r (s ∷ rs) (inl e) = ground (arith, e)
Covered-any_covers r (s ∷ rs) (inr c) = ground (arith, Covered-any_covers r rs c)

is_known-Grants :
    (known : Option (List AccessRights)) (asked : Option AccessRights)
    → is_known known asked ≡ true
    → Grants known asked
unfolding is_known
is_known-Grants none asked h = absurd (ground (arith, h))
is_known-Grants (some known) none h = tt
is_known-Grants (some known) (some asked) h = any_covers-Covered asked known h

Grants-is_known :
    (known : Option (List AccessRights)) (asked : Option AccessRights)
    → Grants known asked
    → is_known known asked ≡ true
unfolding is_known
Grants-is_known none asked h = elim h [ ]
Grants-is_known (some known) none h = refl
Grants-is_known (some known) (some asked) h = Covered-any_covers asked known h

rights_match-Within :
    (held asked : Option AccessRights) → rights_match held asked ≡ true → Within held asked
unfolding rights_match
rights_match-Within none asked h = absurd (ground (arith, h))
rights_match-Within (some held) none h = absurd (ground (arith, h))
rights_match-Within (some held) (some asked) h = ground (arith, h)

Within-rights_match :
    (held asked : Option AccessRights) → Within held asked → rights_match held asked ≡ true
unfolding rights_match
Within-rights_match none asked h = elim h [ ]
Within-rights_match (some held) none h = elim h [ ]
Within-rights_match (some held) (some asked) h = ground (arith, h)

-- Two tests in a row, of which one is to hold
two_tests :
    {X : Type 0} {P Q : Type 0} (x : X) (s t : Bool)
    → ((s ≡ true) ↔ P)
    → ((t ≡ true) ↔ Q)
    → (((if s then ok tt else if t then ok tt else err x) ≡ ok tt) ↔ (P ⊎ Q))
      × (((if s then ok tt else if t then ok tt else err x) ≡ ok tt)
          ⊎ ((if s then ok tt else if t then ok tt else err x) ≡ err x))
two_tests x true t p q = ((λ _. inl (p.0 refl), λ _. refl), inl refl)
two_tests x false true p q = ((λ _. inr (q.0 refl), λ _. refl), inl refl)
two_tests x false false p q = (
  (
    λ h. absurd (ground (arith, h)),
    λ o. elim o [ inl a ↦ absurd (ground (arith, p.1 a)) | inr b ↦ absurd (ground (arith, q.1 b)) ],
  ),
  inr refl,
)

own_purse :
    (a b : ℕ) (held asked : Option AccessRights)
    → ((a == b && rights_match held asked) ≡ true) ↔ ((a ≡ b) × Within held asked)
own_purse a b held asked = (
  λ h. (ground (arith, h), rights_match-Within held asked (ground (arith, h))),
  λ h. ground (arith, h.0, Within-rights_match held asked h.1),
)

module _ {L V E G : Type 0} where
  -- The account's purse, with rights that its own contain, or a known address that grants them
  abbrev pub Accepts : RuntimeContext L V E G → URef → Type 0
  Accepts c u =
      (c.account.purse_id.addr ≡ u.addr) × Within c.account.purse_id.access_rights u.access_rights
      ⊎ Grants (get u.addr c.access_rights) u.access_rights

  -- A reference is validated exactly if the context accepts it, and else is reported as forged.
  pub validate_uref-exact :
      (c : RuntimeContext L V E G) (u : URef)
      → ((validate_uref u c ≡ ok tt) ↔ Accepts c u)
        × ((validate_uref u c ≡ ok tt) ⊎ (validate_uref u c ≡ err (forged_reference u)))
  unfolding validate_uref
  validate_uref-exact c u =
      two_tests (forged_reference u) _ _
        (own_purse c.account.purse_id.addr u.addr c.account.purse_id.access_rights u.access_rights)
        (
          is_known-Grants (get u.addr c.access_rights) u.access_rights,
          Grants-is_known (get u.addr c.access_rights) u.access_rights,
        )
