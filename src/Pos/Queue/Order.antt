-- ===== src/Pos/Queue/Order.antt =====
-- The queue of execution-engine/proof-of-stake/src/queue.rs: what `push` and `pop_due` keep, and
-- what `pop_due` takes out.
use casper_labs.Base.{
  ℕ, ◌+◌, ◌≤◌, ◌<◌, ◌≡◌, ◌≢◌, refl, sym, Bool-cases, inl, inr, ◌⊎◌, false, [], ◌∷◌, ◌++◌, ⊤, ok,
  err, arith, All, any, leb, ◌==◌,
}
use casper_labs.Pos.Error.{multiple_requests, time_went_backwards}
use casper_labs.Pos.Stakes.{Validator}
use casper_labs.Pos.Queue.{Queue, QueueEntry, push, pop_due, partition_due, last, is_ahead}

-- The motes of all the requests in a queue.
abbrev pub amounts : Queue → ℕ
amounts [] = 0
amounts (e ∷ q) = e.amount + amounts q

-- No entry is older than the bound.
abbrev pub Since : ℕ → Queue → Type 0
Since t = All (λ (e : QueueEntry). t ≤ e.timestamp)

-- No entry is a request of the validator.
abbrev pub Lacks : Validator → Queue → Type 0
Lacks v = All (λ (e : QueueEntry). e.validator ≢ v)

-- In ascending order of time, and no validator has two requests.
abbrev pub IsQueue : Queue → Type 0
IsQueue [] = ⊤
IsQueue (e ∷ q) = Since e.timestamp q × Lacks e.validator q × IsQueue q

-- Every entry is due, and no entry is.
abbrev pub Due : ℕ → Queue → Type 0
Due t = All (λ (e : QueueEntry). e.timestamp ≤ t)

abbrev pub NotDue : ℕ → Queue → Type 0
NotDue t = All (λ (e : QueueEntry). t < e.timestamp)

pub amounts-append : (p q : Queue) → amounts (p ++ q) ≡ amounts p + amounts q
amounts-append [] q = omega arith
amounts-append (e ∷ p) q = omega (arith, amounts-append p q)

-- Whatever the order, what is due and what stays hold the motes of the whole queue.
pub amounts-pop_due :
    (t : ℕ) (q : Queue) → amounts (pop_due t q).1 + amounts (pop_due t q).0 ≡ amounts q
unfolding pop_due
amounts-pop_due t [] = omega arith
amounts-pop_due t (e ∷ q) = ground (arith, amounts-pop_due t q)

Since-NotDue : (t u : ℕ) (q : Queue) → t < u → Since u q → NotDue t q
Since-NotDue t u [] h s = tt
Since-NotDue t u (e ∷ q) h s = (omega arith, Since-NotDue t u q h s.1)

partition_due-NotDue : (t : ℕ) (q : Queue) → NotDue t q → partition_due t q ≡ ([], q)
unfolding partition_due
partition_due-NotDue t [] h = refl
partition_due-NotDue t (e ∷ q) h = ground (arith, partition_due-NotDue t q h.1)

-- From a queue in order, `pop_due` takes the requests that are due off the front: these and what
-- stays are the queue, all that it returns is due, and nothing that stays is.
pub pop_due_splits :
    (t : ℕ) (q : Queue)
    → IsQueue q
    → let (rest, due) = pop_due t q in (due ++ rest ≡ q) × Due t due × NotDue t rest
unfolding pop_due
pop_due_splits t [] h = (refl, tt, tt)
pop_due_splits t (e ∷ q) h = elim (Bool-cases (leb e.timestamp t)) [
  | inl due ↦ ground (arith, pop_due_splits t q h.2)
  | inr later ↦ ground (arith, partition_due-NotDue t q, Since-NotDue t e.timestamp q)
]

append-IsQueue_right : (p q : Queue) → IsQueue (p ++ q) → IsQueue q
append-IsQueue_right [] q h = h
append-IsQueue_right (e ∷ p) q h = append-IsQueue_right p q h.2

-- What stays in the queue is in order.
pub pop_due-IsQueue : (t : ℕ) (q : Queue) → IsQueue q → IsQueue (pop_due t q).0
pop_due-IsQueue t q h =
    append-IsQueue_right (pop_due t q).1 (pop_due t q).0 (rw (pop_due_splits t q h).0 h)

any-Lacks :
    (v : Validator) (q : Queue) → any (λ (e : QueueEntry). e.validator == v) q ≡ false → Lacks v q
any-Lacks v [] h = tt
any-Lacks v (e ∷ q) h = ground (arith, any-Lacks v q)

Lacks-any :
    (v : Validator) (q : Queue) → Lacks v q → any (λ (e : QueueEntry). e.validator == v) q ≡ false
Lacks-any v [] h = refl
Lacks-any v (e ∷ q) h = ground (arith, Lacks-any v q h.1)

-- In a queue in order, the last entry is the latest.
last-Due : (t : ℕ) (q : Queue) → IsQueue q → is_ahead t (last q) ≡ false → Due t q
unfolding last
last-Due t [] s h = tt
last-Due t (e ∷ []) s h = ground arith
last-Due t (e ∷ f ∷ q) s h = ground (arith, last-Due t (f ∷ q) s.2 h)

Due-last : (t : ℕ) (q : Queue) → Due t q → is_ahead t (last q) ≡ false
unfolding last
Due-last t [] h = refl
Due-last t (e ∷ []) h = ground arith
Due-last t (e ∷ f ∷ q) h = Due-last t (f ∷ q) h.1

append-All :
    (P : QueueEntry → Type 0) (q : Queue) (e : QueueEntry) → All P q → P e → All P (q ++ e ∷ [])
append-All P [] e h p = (p, tt)
append-All P (f ∷ q) e h p = (h.0, append-All P q e h.1 p)

append-IsQueue :
    (q : Queue) (e : QueueEntry)
    → IsQueue q
    → Lacks e.validator q
    → Due e.timestamp q
    → IsQueue (q ++ e ∷ [])
append-IsQueue [] e s l d = (tt, tt, tt)
append-IsQueue (f ∷ q) e s l d = (
  append-All (λ (g : QueueEntry). f.timestamp ≤ g.timestamp) q e s.0 d.0,
  append-All (λ (g : QueueEntry). g.validator ≢ f.validator) q e s.1 (λ p. l.0 (sym p)),
  append-IsQueue q e s.2 l.1 d.1,
)

-- What a request may come to: the validator has one already; or it is older than one in the queue;
-- or it is put at the end, and the queue stays in order.
abbrev pub PushOutcome : Validator → ℕ → ℕ → Queue → Type 0
PushOutcome v a t q =
    (¬ Lacks v q) × (push v a t q ≡ (q, err multiple_requests))
    ⊎ Lacks v q × (¬ Due t q) × (push v a t q ≡ (q, err time_went_backwards))
    ⊎ Lacks v q
      × Due t q
      × (push v a t q ≡ (q ++ record { validator = v; amount = a; timestamp = t } ∷ [], ok tt))
      × IsQueue (push v a t q).0

-- In a queue in order, `push` refuses a validator with a request in the queue, else a request
-- earlier than one in the queue, and else puts the request at the end and keeps the queue in order.
pub push-branches : (v : Validator) (a t : ℕ) (q : Queue) → IsQueue q → PushOutcome v a t q
unfolding push
push-branches v a t q s = elim (Bool-cases (any (λ (e : QueueEntry). e.validator == v) q)) [
  | inl twice ↦ inl (λ l. cc (twice, Lacks-any v q l), ground arith)
  | inr once ↦ elim (Bool-cases (is_ahead t (last q))) [
    | inl back ↦ inr (inl (any-Lacks v q once, λ d. cc (back, Due-last t q d), ground arith))
    | inr on ↦ inr (
        inr (
          any-Lacks v q once,
          last-Due t q s on,
          rw (once, on),
          rw (once, on)
              (append-IsQueue q (record { validator = v; amount = a; timestamp = t }) s
                (any-Lacks v q once) (last-Due t q s on)),
        ))
  ]
]
