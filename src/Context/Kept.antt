-- ===== src/Context/Kept.antt =====
-- The calls of execution-engine/engine-core/src/runtime_context/mod.rs
-- that leave the account, the rights and the names of the context as they were.
use casper_labs.Base.{ℕ, ◌≡◌, refl, ◌∙◌, Bool, true, false, ⊤, Result, ok, err, if◌then◌else◌, not}
use casper_labs.Types.{Key, PurseId}
use casper_labs.Account.{Account, can_manage_keys_with}
use casper_labs.Values.{NamedKeys, StoredValue}
use casper_labs.TrackingCopy.{LinkedHashMap}
use casper_labs.Context.{
  ContextError, RuntimeContext, Call, check, and_then, is_valid_context, validate_key,
  validate_readable, validate_addable, validate_writeable,
}
use casper_labs.Context.Calls.{
  Environment, validate_value, read_gs, read_gs_direct, read_gs_typed, write_direct, write_gs,
  add_gs, add_unsafe,
}
use casper_labs.Context.Manage.{as_account, own_key, write_back, manage}
use casper_labs.Context.History.{known}

module _ {L V E G : Type 0} where
  pub check-known :
      {A : Type 0} (r : Result (ContextError E) ⊤) (next : Call L V E G A)
      (c : RuntimeContext L V E G)
      → known (next c).0 ≡ known c
      → known (check r next c).0 ≡ known c
  check-known (ok _) next c h = h
  check-known (err e) next c h = refl

  pub and_then-known :
      {A B : Type 0} (p : RuntimeContext L V E G × Result (ContextError E) A)
      (next : A → Call L V E G B) (c : RuntimeContext L V E G)
      → known p.0 ≡ known c
      → ((a : A) (d : RuntimeContext L V E G) → known (next a d).0 ≡ known d)
      → known (and_then p next).0 ≡ known c
  and_then-known (d, ok a) next c h n = n a d ∙ h
  and_then-known (d, err e) next c h n = h

  pub guard-known :
      {A : Type 0} (b : Bool) (e : ContextError E)
      (p : RuntimeContext L V E G × Result (ContextError E) A) (c : RuntimeContext L V E G)
      → known p.0 ≡ known c
      → known (if not b then (c, err e) else p).0 ≡ known c
  guard-known true e p c h = h
  guard-known false e p c h = refl

module _ {L V E G : Type 0} (env : Environment V G) (map : LinkedHashMap L (StoredValue V))
    (meter : Key → StoredValue V → ℕ) where
  pub write_gs-known :
      (key : Key) (value : StoredValue V) (c : RuntimeContext L V E G)
      → known (write_gs env map meter key value c).0 ≡ known c
  unfolding write_gs write_direct
  write_gs-known key value c = check-known (validate_writeable key c) _ c (
      check-known (validate_key key c) _ c
        (check-known (validate_value env map meter value c) _ c refl))

  pub read_gs-known :
      (key : Key) (c : RuntimeContext L V E G) → known (read_gs env map meter key c).0 ≡ known c
  unfolding read_gs read_gs_direct
  read_gs-known key c =
      check-known (validate_readable key c) _ c (check-known (validate_key key c) _ c refl)

  pub add_unsafe-known :
      (key : Key) (value : StoredValue V) (c : RuntimeContext L V E G)
      → known (add_unsafe env map meter key value c).0 ≡ known c
  unfolding add_unsafe
  add_unsafe-known key value c = refl

  pub add_gs-known :
      (key : Key) (value : StoredValue V) (c : RuntimeContext L V E G)
      → known (add_gs env map meter key value c).0 ≡ known c
  unfolding add_gs
  add_gs-known key value c = check-known (validate_addable key c) _ c (
      check-known (validate_key key c) _ c
        (check-known (validate_value env map meter value c) _ c (add_unsafe-known key value c)))

  pub write_back-known :
      (key : Key) (p : Account NamedKeys PurseId × Result (ContextError E) ⊤)
      (c : RuntimeContext L V E G)
      → known (write_back env map meter key p c).0 ≡ known c
  unfolding write_direct write_back
  write_back-known key (a, err e) c = refl
  write_back-known key (a, ok _) c = and_then-known (c, _) _ c refl (λ v d. refl)

  pub manage-known :
      (denied : ContextError E)
      (change : Account NamedKeys PurseId → Account NamedKeys PurseId × Result (ContextError E) ⊤)
      (c : RuntimeContext L V E G)
      → known (manage env map meter denied change c).0 ≡ known c
  unfolding read_gs_typed manage
  manage-known denied change c = guard-known (is_valid_context c) denied _ c (
      guard-known (can_manage_keys_with c.authorization_keys c.account) denied _ c (
        and_then-known (read_gs_typed env map meter as_account (own_key c) c) _ c
          (and_then-known (read_gs env map meter (own_key c) c) _ c (read_gs-known (own_key c) c)
            (λ _ _. refl))
          (λ a d. write_back-known (own_key c) (change a) d)))
