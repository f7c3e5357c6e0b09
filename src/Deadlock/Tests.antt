-- ===== src/Deadlock/Tests.antt =====
-- deadlock/deadlock.cpp: the theorems about graphs at small graphs, and the output of `main`.
use learning_c.Common.{
  ℕ, zero, suc, ◌<◌, ◌≤◌, ◌≡◌, refl, inr, true, some, List, [], ◌∷◌, Memᴰ, arith, get_elem?, ok,
  fault, out_of_fuel, Run, pos, length, ◌↔◌, subst, All, Memᴰ-All,
}
use learning_c.Deadlock.Graph.{
  Pair, Vertex, TaskGraph, process, search_vertex, add_vertex, add_edge, remove_edge,
}
use learning_c.Deadlock.Graph.Valid.{IsValid}
use learning_c.Deadlock.Graph.Keep.{add_edge-IsValid}
use learning_c.Deadlock.Locks.{thread_pair}
use learning_c.Deadlock.Cycle.{
  Search, print_deadlock, each, dfs, reset_visited, restart, search_for_cycle, check_from,
  check_dead_lock,
}
use learning_c.Deadlock.Cycle.Walk.{Edge, Walk, one, more}
use learning_c.Deadlock.Cycle.Complete.{check_dead_lock_complete, check_dead_lock-false_alarm}
use learning_c.Deadlock.Cycle.Total.{check_dead_lock_total}
use learning_c.Deadlock.Cycle.Exact.{Cycle, check_dead_lock_iff}
use learning_c.Deadlock.Main.{main_graph, main}

abbrev pub junk : Pair
junk = record { th_id = 77; kind = process; lock_id = 88; degress = pos 99 }

abbrev blank : Search
blank = record { visited = λ i. true; path = 5 ∷ []; deadlock = true; printed = [] }

abbrev printed_by : Run Search → List (List ℕ)
printed_by (ok s) = s.printed
printed_by fault = []
printed_by out_of_fuel = []

main_output :
    printed_by (main junk blank) ≡ (1 ∷ 2 ∷ 3 ∷ 1 ∷ []) ∷ (1 ∷ 2 ∷ 3 ∷ 4 ∷ 5 ∷ 1 ∷ []) ∷ []
unfolding main main_graph add_vertex add_edge search_vertex check_dead_lock check_from
    search_for_cycle each restart dfs print_deadlock reset_visited
main_output = refl

abbrev pub thread : ℕ → Pair
thread t = thread_pair junk t

abbrev pub vertex : ℕ → List Pair → Vertex
vertex t chain = record { pair = thread t; next = chain }

-- Thread 1 owns lock 500 and no thread waits.
abbrev pub locks : List Pair
locks = record { th_id = 1; kind = process; lock_id = 500; degress = pos 0 } ∷ []

abbrev pub graph_of : List Vertex → TaskGraph
graph_of vs = record { vertex_list = vs; lock_list = locks }

pub empty-IsValid : IsValid (graph_of [])
unfolding search_vertex
empty-IsValid = record {
  distinct = λ i j v w a b m. absurd (ground arith);
  closed = λ i w p a m. absurd (ground arith);
  small = omega arith;
}

abbrev waits : TaskGraph
waits = graph_of (vertex 1 (thread 2 ∷ []) ∷ vertex 2 [] ∷ [])

waits_built : add_edge (graph_of []) (thread 1) (thread 2) ≡ ok waits
unfolding add_edge add_vertex search_vertex
waits_built = refl

waits-IsValid : IsValid waits
waits-IsValid = add_edge-IsValid (graph_of []) waits (thread 1) (thread 2) empty-IsValid waits_built

-- Threads 1 and 2 wait for one another.
abbrev mutual_wait : TaskGraph
mutual_wait = graph_of (vertex 1 (thread 2 ∷ []) ∷ vertex 2 (thread 1 ∷ []) ∷ [])

mutual_wait_built : add_edge waits (thread 2) (thread 1) ≡ ok mutual_wait
unfolding add_edge add_vertex search_vertex
mutual_wait_built = refl

mutual_wait-IsValid : IsValid mutual_wait
mutual_wait-IsValid =
    add_edge-IsValid waits mutual_wait (thread 2) (thread 1) waits-IsValid mutual_wait_built

unlinked : remove_edge mutual_wait (thread 2) (thread 1) ≡ ok waits
unfolding remove_edge search_vertex
unlinked = refl

abbrev mutual_edge : Edge mutual_wait 0 1
unfolding search_vertex
mutual_edge = (vertex 1 (thread 2 ∷ []), thread 2, refl, Memᴰ.head refl, refl)

abbrev mutual_edge_back : Edge mutual_wait 1 0
unfolding search_vertex
mutual_edge_back = (vertex 2 (thread 1 ∷ []), thread 1, refl, Memᴰ.head refl, refl)

abbrev final : Run Search → Search
final (ok s) = s
final fault = blank
final out_of_fuel = blank

mutual_result : check_dead_lock mutual_wait blank ≡ ok (final (check_dead_lock mutual_wait blank))
unfolding check_dead_lock check_from search_for_cycle each restart dfs print_deadlock reset_visited
    search_vertex
mutual_result = refl

check_dead_lock_complete_example : (final (check_dead_lock mutual_wait blank)).deadlock ≡ true
check_dead_lock_complete_example =
    check_dead_lock_complete mutual_wait blank (final (check_dead_lock mutual_wait blank))
      mutual_result (more mutual_edge (one mutual_edge_back))

check_dead_lock_total_example : (t : Search) × (check_dead_lock mutual_wait blank ≡ ok t)
check_dead_lock_total_example = check_dead_lock_total mutual_wait blank mutual_wait-IsValid

check_dead_lock_iff_example :
    (t : Search) × (check_dead_lock mutual_wait blank ≡ ok t)
    × ((t.deadlock ≡ true) ↔ Cycle mutual_wait)
check_dead_lock_iff_example =
    check_dead_lock_iff mutual_wait blank mutual_wait-IsValid mutual_wait-WaitsOnce
  where
    mutual_wait-WaitsOnce :
        (i : ℕ) (w : Vertex) → get_elem? mutual_wait.vertex_list i ≡ some w → length w.next ≤ 1
    mutual_wait-WaitsOnce zero w e = ground arith
    mutual_wait-WaitsOnce (suc zero) w e = ground arith
    mutual_wait-WaitsOnce (suc (suc i)) w e = absurd (ground arith)

-- 1 waits for 2, which waits for 3 and 4, which both wait for 5: no cycle.
abbrev diamond : TaskGraph
diamond = graph_of (
    vertex 1 (thread 2 ∷ [])
    ∷ vertex 2 (thread 3 ∷ thread 4 ∷ [])
    ∷ vertex 3 (thread 5 ∷ [])
    ∷ vertex 4 (thread 5 ∷ [])
    ∷ vertex 5 []
    ∷ [])

abbrev top : Edge diamond 0 1
unfolding search_vertex
top = (vertex 1 (thread 2 ∷ []), thread 2, refl, Memᴰ.head refl, refl)

abbrev left : Edge diamond 1 2
unfolding search_vertex
left = (vertex 2 (thread 3 ∷ thread 4 ∷ []), thread 3, refl, Memᴰ.head refl, refl)

abbrev right : Edge diamond 1 3
unfolding search_vertex
right = (vertex 2 (thread 3 ∷ thread 4 ∷ []), thread 4, refl, Memᴰ.tail (Memᴰ.head refl), refl)

abbrev left_down : Edge diamond 2 4
unfolding search_vertex
left_down = (vertex 3 (thread 5 ∷ []), thread 5, refl, Memᴰ.head refl, refl)

abbrev right_down : Edge diamond 3 4
unfolding search_vertex
right_down = (vertex 4 (thread 5 ∷ []), thread 5, refl, Memᴰ.head refl, refl)

diamond_result : check_dead_lock diamond blank ≡ ok (final (check_dead_lock diamond blank))
unfolding check_dead_lock check_from search_for_cycle each restart dfs print_deadlock reset_visited
    search_vertex
diamond_result = refl

check_dead_lock-false_alarm_example : (final (check_dead_lock diamond blank)).deadlock ≡ true
check_dead_lock-false_alarm_example =
    check_dead_lock-false_alarm diamond blank (final (check_dead_lock diamond blank)) 0 1 2 3 4
      diamond_result top (inr (one left)) (inr (one right)) (omega arith) left_down right_down

-- Every edge of the diamond leads to a later vertex, so none of its walks comes back.
abbrev Ahead : ℕ → Pair → Type 0
Ahead i p = (j : ℕ) → search_vertex diamond p ≡ some j → i < j

chains-Ahead :
    (i : ℕ) (w : Vertex) → get_elem? diamond.vertex_list i ≡ some w → All (Ahead i) w.next
unfolding search_vertex
chains-Ahead zero w e =
    let here : (thread 2 ∷ []) ≡ w.next = ground arith in
    subst (λ l. All (Ahead 0) l) here ((λ j e. ground arith), tt)
chains-Ahead (suc zero) w e =
    let here : (thread 3 ∷ thread 4 ∷ []) ≡ w.next = ground arith in
    subst (λ l. All (Ahead 1) l) here ((λ j e. ground arith), ((λ j e. ground arith), tt))
chains-Ahead (suc (suc zero)) w e =
    let here : (thread 5 ∷ []) ≡ w.next = ground arith in
    subst (λ l. All (Ahead 2) l) here ((λ j e. ground arith), tt)
chains-Ahead (suc (suc (suc zero))) w e =
    let here : (thread 5 ∷ []) ≡ w.next = ground arith in
    subst (λ l. All (Ahead 3) l) here ((λ j e. ground arith), tt)
chains-Ahead (suc (suc (suc (suc zero)))) w e =
    let here : [] ≡ w.next = ground arith in subst (λ l. All (Ahead 4) l) here tt
chains-Ahead (suc (suc (suc (suc (suc i))))) w e = absurd (ground arith)

Walk-lt : {i j : ℕ} → Walk diamond i j → i < j
Walk-lt {i} {j} (one (w, p, e, m, to)) = Memᴰ-All (Ahead i) w.next (chains-Ahead i w e) m j to
Walk-lt {i} (more {j = m} (w, p, e, mem, to) rest) =
    let first : i < m = Memᴰ-All (Ahead i) w.next (chains-Ahead i w e) mem m to in
    omega (arith, Walk-lt rest)

diamond_acyclic : ¬ Cycle diamond
diamond_acyclic (c, walk) = omega (arith, Walk-lt walk)
