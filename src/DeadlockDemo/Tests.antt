-- ===== src/DeadlockDemo/Tests.antt =====
-- deadlock/deadlock_test.cpp: threads 1 and 2 over the mutexes at 100 and 200, with a table of two
-- entries that are all zero.
use learning_c.Common.{ℕ, ◌≡◌, refl, false, List, [], ◌∷◌, pos, Run, ok, fault, out_of_fuel}
use learning_c.Deadlock.Graph.{
  Pair, process, TaskGraph, add_vertex, add_edge, verify_edge, search_vertex, remove_edge,
}
use learning_c.Deadlock.Locks.{
  lock_before, lock_after, search_lock, search_empty_lock, fill_empty, register_wait, link_edge,
  take_over, unlink_edge,
}
use learning_c.Deadlock.Cycle.{Search, check_dead_lock}
use learning_c.DeadlockDemo.{State, run, step, start, demo, acquiring_second, finished}
use learning_c.DeadlockDemo.Stuck.{AllIdle, EndedOrStuck, stuck_threads}
use learning_c.DeadlockDemo.Missed.{undetected}

abbrev blank_pair : Pair
blank_pair = record { th_id = 0; kind = process; lock_id = 0; degress = pos 0 }

abbrev graph : TaskGraph
graph = record { vertex_list = []; lock_list = blank_pair ∷ blank_pair ∷ [] }

abbrev begun : State
begun = start graph 1 2 100 200

abbrev result : Run State → State
result (ok s) = s
result fault = begun
result out_of_fuel = begun

abbrev meeting : List ℕ
meeting = 0 ∷ 0 ∷ 0 ∷ 1 ∷ 1 ∷ 1 ∷ 0 ∷ 1 ∷ []

abbrev stuck : State
stuck = result (run blank_pair begun meeting)

stuck_threads_example : EndedOrStuck blank_pair 1 2 100 200 refl stuck
unfolding run step lock_before lock_after search_lock search_empty_lock fill_empty register_wait
    link_edge add_vertex add_edge verify_edge search_vertex
stuck_threads_example =
    stuck_threads blank_pair 1 2 100 200 refl graph meeting stuck refl (refl, (refl, tt))

-- one thread after the other
abbrev in_turn : List ℕ
in_turn = 0 ∷ 0 ∷ 0 ∷ 0 ∷ 0 ∷ 0 ∷ 0 ∷ 0 ∷ 1 ∷ 1 ∷ 1 ∷ 1 ∷ 1 ∷ 1 ∷ 1 ∷ 1 ∷ []

both_finish : (result (run blank_pair begun in_turn)).threads ≡ demo 1 2 100 200 finished finished
unfolding run step lock_before lock_after search_lock search_empty_lock fill_empty register_wait
    link_edge take_over unlink_edge remove_edge add_vertex add_edge verify_edge search_vertex
both_finish = refl

abbrev blank : Search
blank = record { visited = λ i. false; path = []; deadlock = false; printed = [] }

undetected_example :
    (s : State) × (run blank_pair begun meeting ≡ ok s)
    × (s.threads ≡ demo 1 2 100 200 acquiring_second acquiring_second)
    × AllIdle s s.threads
    × (t : Search) × (check_dead_lock s.graph blank ≡ ok t)
    × (t.deadlock ≡ false)
undetected_example =
    undetected blank_pair 1 2 100 200 refl refl blank_pair (blank_pair ∷ []) refl refl refl blank
