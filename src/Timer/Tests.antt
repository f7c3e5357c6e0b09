-- ===== src/Timer/Tests.antt =====
-- boost/timer.cpp: pools of two workers over a queue that is a list in order of time.
use learning_c.Common.{
  ℕ, ◌≡◌, refl, true, some, List, [], ◌∷◌, ◌++◌, All, arith, Run, ok, fault, out_of_fuel, pos,
  get_elem?,
}
use mathlib.Core.List.{Permᴰ}
use learning_c.PriorityQueue.{
  PriorityQueue, IsPriorityQueue, Ordered, list_queue, list_queue-IsPriorityQueue,
}
use learning_c.Timer.{
  TimeEvent, less, checking, Pool, Event, turn, notify_all, tick, enqueue, start, step, run,
  waiting,
}
use learning_c.Timer.Queue.{less-IsOrder}
use learning_c.Timer.Jobs.{IsDue, events, run-conserves}
use learning_c.Timer.Shutdown.{destructor_overtakes, lost_wakeup}
use learning_c.Timer.Stale.{stale_read}
use learning_c.Timer.Loops.{Readings, clear_times}
use learning_c.Timer.Loops.Serve.{Finishes, serve_total}
use learning_c.Timer.Loops.Fill.{Spaced, Fits, clear_times-Spaced}

abbrev Q : Type 0
Q = (xs : List (TimeEvent ℕ)) × Ordered less xs

abbrev queue : PriorityQueue (TimeEvent ℕ) Q
queue = list_queue less less-IsOrder

queue-IsPriorityQueue : IsPriorityQueue less queue
queue-IsPriorityQueue = list_queue-IsPriorityQueue less less-IsOrder

abbrev at : ℕ → ℕ → TimeEvent ℕ
at t c = record { time = pos t; callback = c }

abbrev empty_pool : Pool ℕ Q
empty_pool = start queue 2

abbrev result : Run (Pool ℕ Q) → Pool ℕ Q
result (ok p) = p
result fault = empty_pool
result out_of_fuel = empty_pool

-- two jobs are added, the second the earlier one, and the clock passes its time
abbrev two_jobs : List (Event ℕ)
two_jobs = enqueue (at 3 7) ∷ enqueue (at 0 8) ∷ tick ∷ []

abbrev loaded : Pool ℕ Q
loaded = result (run queue empty_pool two_jobs)

abbrev one_taken : Pool ℕ Q
one_taken = result (step queue loaded (turn 0))

taken : events one_taken.started ≡ at 0 8 ∷ []
unfolding run step
taken = refl

run-conserves_example :
    Permᴰ one_taken.enqueued (events one_taken.started ++ queue.contents one_taken.time_q)
    × All IsDue one_taken.started
unfolding run step
run-conserves_example =
    run-conserves queue queue-IsPriorityQueue 2 (two_jobs ++ turn 0 ∷ []) one_taken refl

-- the first worker tests the predicate of an empty queue
abbrev about_to_wait : Pool ℕ Q
about_to_wait = result (step queue empty_pool (turn 0))

abbrev late : List (Event ℕ)
late = turn 0 ∷ turn 1 ∷ notify_all ∷ []

abbrev stopped : Pool ℕ Q
stopped = result (run queue about_to_wait (destructor_overtakes queue 0 ++ late))

lost_wakeup_example : (stopped.stop ≡ true) × (get_elem? stopped.workers 0 ≡ some waiting)
unfolding run step
lost_wakeup_example =
    lost_wakeup queue 0 about_to_wait stopped late refl refl refl (tt, (tt, (tt, tt))) refl

-- one job, which is not due
abbrev not_due : Pool ℕ Q
not_due = result (step queue empty_pool (enqueue (at 3 7)))

not_due-top :
    (get_elem? not_due.workers 0 ≡ some checking) × (queue.top not_due.time_q ≡ some (at 3 7))
unfolding step
not_due-top = (refl, refl)

stale_read_example :
    (q : Pool ℕ Q) × (run queue not_due (turn 0 ∷ enqueue (at 1 9) ∷ []) ≡ ok q)
    × (q.enqueued ≡ at 1 9 ∷ not_due.enqueued)
    × (step queue q (turn 0) ≡ fault)
unfolding step
stale_read_example =
    stale_read queue not_due 0 (at 3 7) (at 1 9) not_due-top.0 refl not_due-top.1 refl

-- the queue of `main`, with shorter times
abbrev main_queue : Q
main_queue = queue.push (at 5 1) (queue.push (at 2 2) (queue.push (at 9 3) queue.new))

serve_total_example : Finishes queue queue-IsPriorityQueue (λ k. k) 7 0 main_queue []
serve_total_example = serve_total queue queue-IsPriorityQueue (λ k. k) 7 0 main_queue (omega arith)

abbrev rounds : List Readings
rounds =
    record { checked = 4; next_from = 4; restarted = 4 }
    ∷ record { checked = 14; next_from = 14; restarted = 15 }
    ∷ []

clear_times-Spaced_example : Spaced 10 0 (clear_times 10 0 rounds) × Fits (clear_times 10 0 rounds)
clear_times-Spaced_example =
    clear_times-Spaced 10 20 0 rounds
      (omega arith, omega arith, omega arith, (omega arith, omega arith, omega arith, omega arith))
      (omega arith)
