-- ===== src/Context/Safety.antt =====
-- No reference is forged in a sequence of calls of
-- execution-engine/engine-core/src/runtime_context/mod.rs, and the named keys stay acceptable.
use Prim.Native.String.{String}
use text.Mathlib.Text.{◌==◌ as str_eq}
use casper_labs.Base.{ℕ, ◌≡◌, ◌⊎◌, Option, none, some, List, [], ◌∷◌, ok}
use casper_labs.Types.{Key}
use casper_labs.Types
use casper_labs.Values.{StoredValue}
use casper_labs.TrackingCopy.{LinkedHashMap}
use casper_labs.Context.{RuntimeContext, validate_key}
use casper_labs.Context.Calls.{Environment}
use casper_labs.Context.History.{ContextCall, creating, perform}
use casper_labs.Context.Grows.{Grows}

abbrev created_by :
    {L V E G : Type 0} → Environment V G → ContextCall V → RuntimeContext L V E G → Option ℕ
created_by env call c = elim call [
  | creating _ ↦ some (env.create_address c.address_generator).1
  | _ ↦ none
]

module _ {L V E G : Type 0} where
  -- Every named key is one that the context accepts.
  abbrev pub NamesAccepted : RuntimeContext L V E G → Type 0
  NamesAccepted c =
      (name : String) (key : Key) → c.named_keys name ≡ some key → validate_key key c ≡ ok tt

module _ {L V E G : Type 0} (env : Environment V G) (map : LinkedHashMap L (StoredValue V))
    (meter : Key → StoredValue V → ℕ) where
  -- The addresses that the calls create
  abbrev pub Created : List (ContextCall V) → RuntimeContext L V E G → ℕ → Type 0
  Created [] c a = ⊥
  Created (call ∷ calls) c a =
      (created_by env call c ≡ some a) ⊎ Created calls (perform env map meter call c) a
