-- ===== src/ThreadPool/Tests.antt =====
-- ThreadPool/ThreadPool_adv.cpp: a pool of two workers, run to the end, and with a task after it.
use mathlib.Core.List.{Perm}
use learning_c.Common.{ℕ, ◌≡◌, inl, refl, true, some, none, List, [], ◌∷◌, ◌++◌, arith}
use learning_c.ThreadPool.{
  Pool, Event, step, run, create, total, turn, notify_one, notify_all, notify_none, add_task,
  set_stop,
}
use learning_c.ThreadPool.Queue.{in_hand, tasks_in_order}
use learning_c.ThreadPool.Wakeups.{CanStep, no_lost_wakeup}
use learning_c.ThreadPool.Shutdown.{shutdown_drains, late_tasks_kept, Same}

abbrev after : Pool ℕ → List (Event ℕ) → Pool ℕ
after p es = elim (run p es) [ none ↦ p | some q ↦ q ]

-- two workers sleep, two tasks come, one worker is woken and takes the first
abbrev first_taken : List (Event ℕ)
first_taken = turn 0 ∷ turn 1 ∷ add_task 7 ∷ add_task 8 ∷ notify_one 1 ∷ turn 1 ∷ []

abbrev busy : Pool ℕ
busy = after (create 2) first_taken

-- what the pool then does by itself, and how it is stopped
abbrev both_done : List (Event ℕ)
both_done = turn 1 ∷ turn 1 ∷ notify_one 0 ∷ turn 1 ∷ turn 0 ∷ turn 1 ∷ []

abbrev shutdown : List (Event ℕ)
shutdown = first_taken ++ both_done ++ set_stop true ∷ notify_all ∷ turn 0 ∷ turn 1 ∷ []

abbrev stopped : Pool ℕ
stopped = after (create 2) shutdown

abbrev with_late_task : List (Event ℕ)
with_late_task = add_task 9 ∷ notify_none ∷ []

tasks_in_order_example :
    (busy.started ++ busy.task_queue ≡ 7 ∷ 8 ∷ [])
    × Perm busy.started (busy.finished ++ in_hand busy.threads)
unfolding run step create total
tasks_in_order_example = tasks_in_order 2 first_taken busy refl

no_lost_wakeup_example : CanStep busy
unfolding run step create total
no_lost_wakeup_example = no_lost_wakeup 2 first_taken busy refl (inl (ground arith)) (omega arith)

shutdown_drains_example : (stopped.task_queue ≡ []) × Perm (7 ∷ 8 ∷ []) stopped.finished
unfolding run step create total
shutdown_drains_example = shutdown_drains 1 shutdown stopped refl refl refl

late_tasks_kept_example :
    Same stopped (after stopped with_late_task)
    × ((r : Pool ℕ) × (step (after stopped with_late_task) (add_task 10) ≡ some r)
        × (r.submitted ≡ 7 ∷ 8 ∷ 9 ∷ 10 ∷ [])
        × (r.task_queue ≡ 9 ∷ 10 ∷ []))
unfolding run step create total
late_tasks_kept_example =
    late_tasks_kept stopped (after stopped with_late_task) with_late_task 10 refl refl
