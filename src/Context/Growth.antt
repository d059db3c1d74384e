-- ===== src/Context/Growth.antt =====
-- How what a context of execution-engine/engine-core/src/runtime_context/mod.rs accepts grows by `insert_uref`.
use Prim.Native.Nat.{bit_and}
use casper_labs.Base.{
  ℕ, ◌≡◌, refl, sym, ◌∙◌, Bool-cases, inl, inr, ◌⊎◌, ◌↔◌, Option, none, some, List, [], ◌∷◌, ⊤,
  arith, ◌==◌, ==_iff,
}
use casper_labs.BtreeMap.{BtreeMap, get, insert}
use casper_labs.BtreeMap.Lookup.{get-insert}
use casper_labs.Types.{AccessRights, URef}
use casper_labs.Types.Bits.{bit_and_trans}
use casper_labs.Context.{RuntimeContext, entry, insert_uref}
use casper_labs.Context.Rights.{Covered, Grants, Within, Accepts}

-- A reference with the first rights, if it has any, allows for one with the second.
abbrev pub Gives : Option AccessRights → Option AccessRights → Type 0
Gives none asked = ⊥
Gives (some held) none = ⊤
Gives (some held) (some asked) = bit_and held asked ≡ asked

Grants-entry :
    (r : AccessRights) (known : Option (List AccessRights)) (asked : Option AccessRights)
    → (Grants (some (r ∷ entry known)) asked → Grants known asked ⊎ Gives (some r) asked)
      × (Grants known asked ⊎ Gives (some r) asked → Grants (some (r ∷ entry known)) asked)
Grants-entry r none none = (λ _. inr tt, λ _. tt)
Grants-entry r (some rs) none = (λ _. inl tt, λ _. tt)
Grants-entry r none (some a) = (
  λ o. elim o [ inl e ↦ inr e | inr n ↦ elim n [ ] ],
  λ o. elim o [ inl n ↦ elim n [ ] | inr e ↦ inl e ],
)
Grants-entry r (some rs) (some a) =
    (λ o. elim o [ inl e ↦ inr e | inr n ↦ inl n ], λ o. elim o [ inl n ↦ inr n | inr e ↦ inl e ])

Grants-insert :
    (j a : ℕ) (r : AccessRights) (m : BtreeMap (List AccessRights)) (asked : Option AccessRights)
    → Grants (get j (insert a (r ∷ entry (get a m)) m)) asked
      ↔ (Grants (get j m) asked ⊎ (j ≡ a) × Gives (some r) asked)
Grants-insert j a r m asked = elim (Bool-cases (j == a)) [
  | inl e ↦
      rw (get-insert a j (r ∷ entry (get a m)) m, e, (==_iff j a).0 e)
        (
          λ g. elim ((Grants-entry r (get a m) asked).0 g) [
            | inl k ↦ inl k
            | inr v ↦ inr (refl, v)
          ],
          λ o. (Grants-entry r (get a m) asked).1 (elim o [ inl k ↦ inl k | inr v ↦ inr v.1 ]),
        )
  | inr n ↦
      rw (get-insert a j (r ∷ entry (get a m)) m, n)
        (λ g. inl g, λ o. elim o [ inl k ↦ k | inr v ↦ absurd (ground (arith, v.0, n)) ])
]

Within-Gives :
    (held mid : Option AccessRights) (asked : AccessRights)
    → Within held mid
    → Gives mid (some asked)
    → Within held (some asked)
Within-Gives none mid asked w g = elim w [ ]
Within-Gives (some h) none asked w g = elim w [ ]
Within-Gives (some h) (some r) asked w g = bit_and_trans h r asked w g

Covered-Gives :
    (rs : List AccessRights) (r asked : AccessRights)
    → Covered r rs
    → bit_and r asked ≡ asked
    → Covered asked rs
Covered-Gives [] r asked c g = elim c [ ]
Covered-Gives (s ∷ rs) r asked (inl e) g = inl (bit_and_trans s r asked e g)
Covered-Gives (s ∷ rs) r asked (inr c) g = inr (Covered-Gives rs r asked c g)

Grants-Gives :
    (known : Option (List AccessRights)) (mid : Option AccessRights) (asked : AccessRights)
    → Grants known mid
    → Gives mid (some asked)
    → Grants known (some asked)
Grants-Gives none mid asked w g = elim w [ ]
Grants-Gives (some h) none asked w g = elim g [ ]
Grants-Gives (some h) (some r) asked w g = Covered-Gives h r asked w g

module _ {L V E G : Type 0} where
  grown :
      (c : RuntimeContext L V E G) (a : ℕ) (rights : Option AccessRights) (w : URef)
      → Accepts (insert_uref (record { addr = a; access_rights = rights }) c) w
        ↔ (Accepts c w ⊎ (w.addr ≡ a) × Gives rights w.access_rights)
  unfolding insert_uref
  grown c a none w = (inl, λ o. elim o [ inl k ↦ k | inr g ↦ elim g.1 [ ] ])
  grown c a (some r) w =
      let (there, back) = Grants-insert w.addr a r c.access_rights w.access_rights in
      (
        λ acc. elim acc [
          | inl own ↦ inl (inl own)
          | inr g ↦ elim (there g) [ inl k ↦ inl (inr k) | inr v ↦ inr v ]
        ],
        λ o. elim o [
          | inl acc ↦ elim acc [ inl own ↦ inl own | inr k ↦ inr (back (inl k)) ]
          | inr v ↦ inr (back (inr v))
        ],
      )

  -- After a reference is inserted, exactly those are accepted that were before, and those to its address
  -- that its rights allow for.
  pub insert_uref-Accepts :
      (c : RuntimeContext L V E G) (u w : URef)
      → Accepts (insert_uref u c) w
        ↔ (Accepts c w ⊎ (w.addr ≡ u.addr) × Gives u.access_rights w.access_rights)
  insert_uref-Accepts c u w = grown c u.addr u.access_rights w

  -- Nothing is gained with a reference that is accepted: those to its address with rights that its own
  -- contain are accepted as well.
  pub Accepts-attenuated :
      (c : RuntimeContext L V E G) (u w : URef) (asked : AccessRights)
      → Accepts c u
      → w.addr ≡ u.addr
      → w.access_rights ≡ some asked
      → Gives u.access_rights (some asked)
      → Accepts c w
  Accepts-attenuated c u w asked a same e g = elim a [
    | inl own ↦ inl (
      own.0 ∙ sym same,
      rw e (Within-Gives c.account.purse_id.access_rights u.access_rights asked own.1 g),
    )
    | inr known ↦
        inr (rw (e, same) (Grants-Gives (get u.addr c.access_rights) u.access_rights asked known g))
  ]
