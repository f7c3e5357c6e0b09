-- ===== src/PriorityDemo.antt =====
-- boost/priority_que.cpp: events in boost's priority queue, taken out one after another. What is
-- printed of an event is its two fields; the queue is the interface of PriorityQueue.
pub mod Order
mod Tests
use learning_c.Common.{
  ℕ, zero, suc, Bool, Option, none, some, List, [], ◌∷◌, Run, ok, out_of_fuel, ◌>>=◌, ℤ, pos, ltbℤ,
}
use learning_c.PriorityQueue.{PriorityQueue}

pub record TimerEvent : Type 0 where
  pub id : ℤ
  pub time : ℤ

-- `operator<`
abbrev pub less : TimerEvent → TimerEvent → Bool
less a b = ltbℤ a.time b.time

module _ {Q : Type 0} (H : PriorityQueue TimerEvent Q) where
  -- the loop of `main`, for at most `fuel` rounds: the events that it prints
  unfoldable pub process : ℕ → Q → Run (List TimerEvent)
  process zero q = out_of_fuel
  process (suc fuel) q = elim (H.top q) [
    | none ↦ ok []
    | some event ↦ do printed ← process fuel (H.pop q); ok (event ∷ printed)
  ]

  abbrev pub push_all : List TimerEvent → Q → Q
  push_all [] q = q
  push_all (event ∷ events) q = push_all events (H.push event q)

  -- `main` with any events in place of its three
  abbrev pub process_events : List TimerEvent → ℕ → Run (List TimerEvent)
  process_events events fuel = process fuel (push_all events H.new)

abbrev pub main_events : List TimerEvent
main_events =
    record { id = pos 1; time = pos 5 }
    ∷ record { id = pos 2; time = pos 3 }
    ∷ record { id = pos 3; time = pos 10 }
    ∷ []
