-- ===== src/Deadlock/LockTests.antt =====
-- deadlock/deadlock.cpp: the theorems about the table of locks at small tables.
use learning_c.Common.{ℕ, ◌≡◌, refl, none, some, List, [], ◌∷◌, arith, ok, pos}
use learning_c.Deadlock.Graph.{
  Pair, TaskGraph, process, search_vertex, add_vertex, add_edge, verify_edge, remove_edge,
}
use learning_c.Deadlock.Graph.Spec.{targets}
use learning_c.Deadlock.Locks.{
  search_lock, register_wait, take_over, link_edge, unlink_edge, lock_before, lock_after,
}
use learning_c.Deadlock.Locks.Returns.{wait_round_total}
use learning_c.Deadlock.Locks.Table.{perform, before, after}
use learning_c.Deadlock.Tests.{junk, thread, vertex, graph_of}

-- The graph after thread 2, and after threads 2 and 3, began to wait for lock 500.
abbrev table : ℕ → ℕ → List Pair
table owner waiting =
    record { th_id = owner; kind = process; lock_id = 500; degress = pos waiting } ∷ []

abbrev waiting_one : TaskGraph
waiting_one = record {
  vertex_list = vertex 2 (thread 1 ∷ []) ∷ vertex 1 [] ∷ [];
  lock_list = table 1 1;
}

one_waits : lock_before junk (graph_of []) 2 500 ≡ ok waiting_one
unfolding lock_before register_wait link_edge verify_edge add_edge add_vertex search_vertex
    search_lock
one_waits = refl

abbrev served_one : TaskGraph
served_one = record { vertex_list = vertex 2 [] ∷ vertex 1 [] ∷ []; lock_list = table 2 0 }

one_served : lock_after junk waiting_one 2 500 ≡ ok served_one
unfolding lock_after take_over unlink_edge verify_edge remove_edge search_vertex search_lock
one_served = refl

lock_found :
    (g : TaskGraph) (owner n : ℕ) → g.lock_list ≡ table owner n → search_lock g 500 ≡ some 0
unfolding search_lock
lock_found g owner n e = rw e

nobody_known : (t : ℕ) → targets (graph_of []) (thread t) ≡ []
unfolding targets search_vertex
nobody_known t = refl

abbrev free_lock : Pair
free_lock = record { th_id = 1; kind = process; lock_id = 500; degress = pos 0 }

wait_round_total_example :
    (g₁ : TaskGraph) × (g₂ : TaskGraph) × (lock_before junk (graph_of []) 2 500 ≡ ok g₁)
    × (lock_after junk g₁ 2 500 ≡ ok g₂)
    × ((q : Pair) → targets g₂ q ≡ targets (graph_of []) q)
    × (g₂.lock_list ≡ table 2 0)
wait_round_total_example =
    wait_round_total junk (graph_of []) 2 500 0 free_lock (lock_found (graph_of []) 1 0 refl) refl
      (rw (nobody_known 2)) (omega arith)

abbrev waiting_two : TaskGraph
waiting_two = record {
  vertex_list = vertex 2 (thread 1 ∷ []) ∷ vertex 1 [] ∷ vertex 3 (thread 1 ∷ []) ∷ [];
  lock_list = table 1 2;
}

two_wait : lock_before junk waiting_one 3 500 ≡ ok waiting_two
unfolding lock_before register_wait link_edge verify_edge add_edge add_vertex search_vertex
    search_lock
two_wait = refl

abbrev first_served : TaskGraph
first_served = record {
  vertex_list = vertex 2 [] ∷ vertex 1 [] ∷ vertex 3 (thread 1 ∷ []) ∷ [];
  lock_list = table 2 1;
}

abbrev both_served : TaskGraph
both_served = record first_served { lock_list = table 3 0 }

first_gets : lock_after junk waiting_two 2 500 ≡ ok first_served
unfolding lock_after take_over unlink_edge verify_edge remove_edge search_vertex search_lock
first_gets = refl

second_gets : lock_after junk first_served 3 500 ≡ ok both_served
unfolding lock_after take_over unlink_edge verify_edge remove_edge search_vertex search_lock
second_gets = refl

served : perform junk waiting_one (after 2 500) ≡ ok served_one
unfolding perform
served = one_served

waited : perform junk (graph_of []) (before 2 500) ≡ ok waiting_one
unfolding perform
waited = one_waits

unknown_lock : search_lock waiting_one 600 ≡ none
unfolding search_lock
unknown_lock = refl
