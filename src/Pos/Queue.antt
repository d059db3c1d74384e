-- ===== src/Pos/Queue.antt =====
-- The queues of requests of execution-engine/proof-of-stake/src/queue.rs.
pub mod Order
use casper_labs.Base.{
  ℕ, Bool, true, false, Option, none, some, List, [], ◌∷◌, ◌++◌, ⊤, Result, ok, err, any, ltb, leb,
  ◌==◌, if◌then◌else◌,
}
use casper_labs.Pos.Error.{Error, multiple_requests, time_went_backwards}
use casper_labs.Pos.Stakes.{Validator}

-- A `BlockTime` is a `u64`.
pub record QueueEntry : Type 0 where
  pub validator : Validator
  pub amount : ℕ
  pub timestamp : ℕ

abbrev pub Queue : Type 0
Queue = List QueueEntry

unfoldable pub last : Queue → Option QueueEntry
last [] = none
last (e ∷ []) = some e
last (e ∷ f ∷ q) = last (f ∷ q)

-- The timestamp of the last entry is later than the new one.
abbrev pub is_ahead : ℕ → Option QueueEntry → Bool
is_ahead timestamp none = false
is_ahead timestamp (some entry) = ltb timestamp entry.timestamp

unfoldable pub push : Validator → ℕ → ℕ → Queue → Queue × Result Error ⊤
unfolding last
push validator amount timestamp q =
    if any (λ (entry : QueueEntry). entry.validator == validator) q
    then (q, err multiple_requests)
    else if is_ahead timestamp (last q)
    then (q, err time_went_backwards)
    else (q ++ record { validator = validator; amount = amount; timestamp = timestamp } ∷ [], ok tt)

-- `partition(|entry| entry.timestamp <= timestamp)`: those for which the test holds, and the rest.
unfoldable pub partition_due : ℕ → Queue → Queue × Queue
partition_due timestamp [] = ([], [])
partition_due timestamp (e ∷ q) =
    let (older, rest) = partition_due timestamp q in
    if leb e.timestamp timestamp then (e ∷ older, rest) else (older, e ∷ rest)

-- The queue that is left, and the entries that are due.
unfoldable pub pop_due : ℕ → Queue → Queue × Queue
unfolding partition_due
pop_due timestamp q = let (older_than, rest) = partition_due timestamp q in (rest, older_than)
