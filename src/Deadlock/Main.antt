-- ===== src/Deadlock/Main.antt =====
-- deadlock/deadlock.cpp, `main`: five threads, six edges, one check. `junk` is what the fields of a
-- pair hold that `main` does not assign, `blank` what `malloc` left in the fields of the search.
use learning_c.Common.{[], Run, ◌>>=◌}
use learning_c.Deadlock.Graph.{Pair, TaskGraph, add_vertex, add_edge}
use learning_c.Deadlock.Locks.{thread_pair}
use learning_c.Deadlock.Cycle.{Search, check_dead_lock}

abbrev pub empty_graph : TaskGraph
empty_graph = record { vertex_list = []; lock_list = [] }

unfoldable pub main_graph : Pair → Run TaskGraph
main_graph junk = do
  let v₁ = thread_pair junk 1
  let v₂ = thread_pair junk 2
  let v₃ = thread_pair junk 3
  let v₄ = thread_pair junk 4
  let v₅ = thread_pair junk 5
  g ← add_vertex empty_graph v₁
  g ← add_vertex g v₂
  g ← add_vertex g v₃
  g ← add_vertex g v₄
  g ← add_vertex g v₅
  g ← add_edge g v₁ v₂
  g ← add_edge g v₂ v₃
  g ← add_edge g v₃ v₄
  g ← add_edge g v₄ v₅
  g ← add_edge g v₃ v₁
  add_edge g v₅ v₁

unfoldable pub main : Pair → Search → Run Search
main junk blank = do g ← main_graph junk; check_dead_lock g blank
