-- ===== src/Timer/Loops.antt =====
-- boost/timer.cpp: the two loops of `main`, the one that runs the jobs of a queue in one thread (with
-- `one_thread` defined) and the one that adds a job at every interval.
pub mod Serve
pub mod Fill
use learning_c.Common.{
  ℕ, zero, suc, ◌+◌, ◌-◌, Bool, true, false, Option, none, some, List, [], ◌∷◌, leb, Run, ok,
  out_of_fuel, ℤ, pos, ◌+ℤ◌, negate, ltbℤ, if◌then◌else◌,
}
use learning_c.PriorityQueue.{PriorityQueue}
use learning_c.Timer.{TimeEvent, seconds}

-- A job with the clock at which it ran.
abbrev pub Ran : Type 0 → Type 0
Ran C = TimeEvent C × ℕ

-- The loop over the queue, for at most `fuel` rounds. A callback takes, and a sleep is late by,
-- `late k` seconds when `k` rounds are left. The jobs are returned last one first.
module _ {C Q : Type 0} (H : PriorityQueue (TimeEvent C) Q) (late : ℕ → ℕ) where
  unfoldable pub serve : ℕ → ℕ → Q → List (Ran C) → Run (List (Ran C))
  serve zero clock q done = out_of_fuel
  serve (suc fuel) clock q done = elim (H.top q) [
    | none ↦ ok done
    | some e ↦ elim (ltbℤ (pos clock) e.time) [
      | false ↦ serve fuel (clock + late fuel) (H.pop q) ((e, clock) ∷ done)
      | true ↦ serve fuel (clock + seconds (e.time +ℤ negate (pos clock)) + late fuel) q done
    ]
  ]

-- The readings of the clock in one round of the other loop: for `elapsed_time`, and, where a job is
-- added, for `next_clear_time` and for `now`.
pub record Readings : Type 0 where
  pub checked : ℕ
  pub next_from : ℕ
  pub restarted : ℕ

-- the times of the jobs that the loop adds, from the value of `now` on
unfoldable pub fill : ℕ → ℕ → List Readings → List ℕ
fill interval now [] = []
fill interval now (r ∷ rs) = elim (leb interval (r.checked - now)) [
  | true ↦ (r.next_from + interval) ∷ fill interval r.restarted rs
  | false ↦ fill interval now rs
]

-- `main`: the first job, and those of the loop
unfoldable pub clear_times : ℕ → ℕ → List Readings → List ℕ
clear_times interval now rs = (now + interval) ∷ fill interval now rs
