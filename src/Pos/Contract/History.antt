-- ===== src/Pos/Contract/History.antt =====
-- The contract of execution-engine/proof-of-stake/src/lib.rs over time. A call that fails reverts
-- the deploy that makes it, and with it whatever the call had written.
use casper_labs.Base.{ℕ, ◌≤◌, ◌≡◌, ◌≢◌, Option, ok}
use casper_labs.Types.{URef, PurseId}
use casper_labs.Pos.Stakes.{Validator}
use casper_labs.Pos.World.{World, MintProvider, Phase}
use casper_labs.Pos.Contract.{bond, unbond, step}
use casper_labs.Pos.Contract.Solvency.{held}

module _ {M : Type 0} (mint : MintProvider M) (purse : PurseId) where
  -- One event in the life of the contract: a call that succeeds; a call that fails, of which nothing
  -- stays; a new context, in time, phase or caller; or a change in the mint by others, who cannot
  -- take motes out of the contract's purse.
  pub data Event : World M → World M → Type 0 where
    bonds :
        (w : World M) (v : Validator) (a : ℕ) (source : URef)
        → source.addr ≢ purse.addr
        → (bond mint v a source w).1 ≡ ok tt
        → Event w (bond mint v a source w).0
    unbonds :
        (w : World M) (v : Validator) (o : Option ℕ)
        → (unbond mint v o w).1 ≡ ok tt
        → Event w (unbond mint v o w).0
    steps : (w : World M) → (step mint w).1 ≡ ok tt → Event w (step mint w).0
    reverts : (w : World M) → Event w w
    context :
        (w : World M) (t : ℕ) (p : Phase) (c : Validator)
        → Event w (record w { block_time = t; phase = p; caller = c })
    others :
        (w : World M) (m : M)
        → held mint purse w.mint ≤ held mint purse m
        → Event w (record w { mint = m })

  pub data Reach (w : World M) : World M → Type 0 where
    here : Reach w w
    next : {u v : World M} → Reach w u → Event u v → Reach w v
