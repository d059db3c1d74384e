-- ===== src/Pos/World.antt =====
-- What the contract of execution-engine/proof-of-stake/src/lib.rs works on, through its providers:
-- the two queues, the stakes, the named keys, the calling context, and the mint. A call returns the
-- world as it leaves it, on a failure too.
use Prim.Native.String.{String}
use text.Mathlib.Text.{◌==◌ as str_eq}
use casper_labs.Base.{
  ℕ, Bool, true, false, Option, none, some, [], ◌∷◌, ⊤, Result, ok, err, if◌then◌else◌,
}
use casper_labs.Types.{Key, PurseId}
use casper_labs.Pos.Error.{Error, Trap, failed, stakes_not_found}
use casper_labs.Pos.Stakes.{Stakes, Validator}
use casper_labs.Pos.Queue.{Queue}

pub data Phase : Type 0 where
  system payment session finalize_payment : Phase

-- `MintProvider`, over the state `M` of the mint. Each caller drops the values inside of the
-- results of a transfer, so these are Booleans: whether the transfer succeeded.
pub record MintProvider (M : Type 0) : Type 0 where
  pub transfer_from_purse_to_account : PurseId → Validator → ℕ → M → M × Bool
  pub transfer_from_purse_to_purse : PurseId → PurseId → ℕ → M → M × Bool
  pub get_balance : PurseId → M → Option ℕ

pub record World (M : Type 0) : Type 0 where
  pub bonding : Queue
  pub unbonding : Queue
  -- what `StakesProvider::read` returns
  pub stakes : Result Error Stakes
  pub named_keys : String → Option Key
  pub phase : Phase
  pub block_time : ℕ
  pub caller : Validator
  pub mint : M

-- The stakes that are read after a write: a map with no entry is not found.
abbrev pub stored_stakes : Stakes → Result Error Stakes
stored_stakes [] = err stakes_not_found
stored_stakes (e ∷ m) = ok (e ∷ m)

module _ {M : Type 0} where
  abbrev pub write_bonding : Queue → World M → World M
  write_bonding q w = record w { bonding = q }

  abbrev pub write_unbonding : Queue → World M → World M
  write_unbonding q w = record w { unbonding = q }

  abbrev pub write_stakes : Stakes → World M → World M
  write_stakes m w = record w { stakes = stored_stakes m }

  abbrev pub put_key : String → Key → World M → World M
  put_key name key w = record w {
    named_keys = λ n. if str_eq n name then some key else w.named_keys n;
  }

  abbrev pub remove_key : String → World M → World M
  remove_key name w = record w { named_keys = λ n. if str_eq n name then none else w.named_keys n }

abbrev pub Call : Type 0 → Type 0 → Type 0
Call M A = World M → World M × Result Trap A

module _ {M A : Type 0} where
  abbrev pub pure : A → Call M A
  pure a w = (w, ok a)

  abbrev pub gets : (World M → A) → Call M A
  gets f w = (w, ok (f w))

  abbrev pub lift : Result Trap A → Call M A
  lift r w = (w, r)

  -- An error of a provider or of a queue.
  abbrev pub lift_error : Result Error A → Call M A
  lift_error (ok a) w = (w, ok a)
  lift_error (err e) w = (w, err (failed e))

  abbrev pub raise : Error → Call M A
  raise e w = (w, err (failed e))

module _ {M : Type 0} where
  abbrev pub raise_if : Bool → Error → Call M ⊤
  raise_if true e w = (w, err (failed e))
  raise_if false e w = (w, ok tt)

  abbrev pub modify : (World M → World M) → Call M ⊤
  modify f w = (f w, ok tt)

  -- A call of the mint.
  abbrev pub on_mint : (M → M × Bool) → Call M Bool
  on_mint f w = let (m, done) = f w.mint in (record w { mint = m }, ok done)

abbrev pub continue :
    {M A B : Type 0} → World M × Result Trap A → (A → Call M B) → World M × Result Trap B
continue (w, ok a) f = f a w
continue (w, err e) f = (w, err e)

infixl 5 ◌>>=◌ ◌>>◌
abbrev pub ◌>>=◌ : {M A B : Type 0} → Call M A → (A → Call M B) → Call M B
◌>>=◌ m f w = continue (m w) f

abbrev pub ◌>>◌ : {M A B : Type 0} → Call M A → Call M B → Call M B
m >> k = m >>= λ _. k
