-- ===== src/DeadlockDemo/Missed.antt =====
-- deadlock/deadlock_test.cpp with the hook of deadlock/deadlock.cpp: what the detector knows when both
-- threads are stuck.
use learning_c.Common.{
  ℕ, ◌≡◌, refl, true, false, none, some, List, [], ◌∷◌, ◌==◌, update, ok, arith, increment, is_zero,
}
use learning_c.Deadlock.Graph.{
  Pair, Vertex, TaskGraph, search_vertex, add_vertex, add_edge, verify_edge,
}
use learning_c.Deadlock.Locks.{
  search_lock, search_lock_from, search_empty_lock, fill_empty, register_wait, link_edge,
  lock_before, lock_after, thread_pair,
}
use learning_c.Deadlock.Cycle.{
  Search, each, reset_visited, dfs, restart, search_for_cycle, check_from, check_dead_lock,
}
use learning_c.DeadlockDemo.{acquiring_second, State, step, run, demo, start}
use learning_c.DeadlockDemo.Stuck.{AllIdle}

module _ (junk : Pair) (a b m n : ℕ) (apart : (m == n) ≡ false) (differ : (a == b) ≡ false)
    (e : Pair) (es : List Pair) (unused : is_zero e.degress ≡ true)
    (no_m : search_lock_from m (e ∷ es) 0 ≡ none)
    (no_n : search_lock_from n (e ∷ es) 0 ≡ none) where
  abbrev table : List Vertex → Pair → TaskGraph
  table vs entry = record { vertex_list = vs; lock_list = entry ∷ es }

  abbrev entry : ℕ → ℕ → Pair
  entry t l = record e { th_id = t; lock_id = l }

  rest_m : search_lock_from m es 1 ≡ none
  rest_m = ground (arith, no_m)

  rest_n : search_lock_from n es 1 ≡ none
  rest_n = ground (arith, no_n)

  before_first : lock_before junk (table [] e) a m ≡ ok (table [] e)
  unfolding lock_before search_lock
  before_first = ground (arith, no_m)

  after_first : lock_after junk (table [] e) a m ≡ ok (table [] (entry a m))
  unfolding lock_after search_lock fill_empty search_empty_lock
  after_first = ground (arith, no_m, unused)

  before_second : lock_before junk (table [] (entry a m)) b n ≡ ok (table [] (entry a m))
  unfolding lock_before search_lock
  before_second = ground (arith, rest_n, apart)

  -- The entry counts no waiter, so it is taken for a free one.
  after_second : lock_after junk (table [] (entry a m)) b n ≡ ok (table [] (entry b n))
  unfolding lock_after search_lock fill_empty search_empty_lock
  after_second = ground (arith, rest_n, apart, unused)

  abbrev waited : Pair
  waited = record (entry b n) { degress = increment e.degress }

  abbrev one_edge : List Vertex
  one_edge =
      record { pair = thread_pair junk a; next = thread_pair junk b ∷ [] }
      ∷ record { pair = thread_pair junk b; next = [] }
      ∷ []

  wait_first : lock_before junk (table [] (entry b n)) a n ≡ ok (table one_edge waited)
  unfolding lock_before search_lock register_wait add_vertex search_vertex link_edge verify_edge
      add_edge
  wait_first = ground (arith, differ)

  -- The first mutex is no longer in the table.
  wait_second : lock_before junk (table one_edge waited) b m ≡ ok (table one_edge waited)
  unfolding lock_before search_lock
  wait_second = ground (arith, rest_m, apart)

  found : (entry : Pair) → search_vertex (table one_edge entry) (thread_pair junk b) ≡ some 1
  unfolding search_vertex
  found entry = ground (arith, differ)

  abbrev searched : Search → Search
  searched blank = record {
    visited = update (update (update (update blank.visited 0 true) 1 false) 1 true) 1 true;
    path = 1 ∷ [];
    deadlock = false;
    printed = blank.printed;
  }

  no_flag :
      (blank : Search) (entry : Pair)
      → check_dead_lock (table one_edge entry) blank ≡ ok (searched blank)
  unfolding check_dead_lock check_from search_for_cycle restart dfs each reset_visited
  no_flag blank entry = rw (found entry) refl

  abbrev both_wait : State
  both_wait = record {
    graph = table one_edge waited;
    owners = update (update (λ l. none) m (some 0)) n (some 1);
    threads = demo a b m n acquiring_second acquiring_second;
  }

  -- each thread takes its first mutex and calls for the other's
  abbrev pub crossing : List ℕ
  crossing = 0 ∷ 0 ∷ 0 ∷ 1 ∷ 1 ∷ 1 ∷ 0 ∷ 1 ∷ []

  cross : run junk (start (table [] e) a b m n) crossing ≡ ok both_wait
  unfolding run step
  cross =
      rw (before_first, after_first, before_second, apart, after_second, wait_first, wait_second)
        refl

  both_idle : AllIdle both_wait (demo a b m n acquiring_second acquiring_second)
  both_idle = (ground (arith, apart), (ground (arith, apart), tt))

  -- Let a table of locks know neither of two different mutexes and have a first entry that counts no
  -- waiter, and let the graph have no vertex. There is a schedule of the two threads, with different
  -- ids, under the hook, after which each waits for the mutex of the other for ever, and
  -- `check_dead_lock` on the graph that the hook has recorded returns without the flag.
  pub undetected :
      (blank : Search)
      → (s : State) × (run junk (start (table [] e) a b m n) crossing ≡ ok s)
        × (s.threads ≡ demo a b m n acquiring_second acquiring_second)
        × AllIdle s s.threads
        × (t : Search) × (check_dead_lock s.graph blank ≡ ok t)
        × (t.deadlock ≡ false)
  undetected blank = (both_wait, cross, refl, both_idle, searched blank, no_flag blank waited, refl)
