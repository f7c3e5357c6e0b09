-- ===== src/Deadlock/Cycle.antt =====
-- deadlock/deadlock.cpp, section check cycle. `path` is path[0 .. k) with its last entry first: the
-- entries from k on, which `search_for_cycle` sets to -1, are never read before they are written.
-- `deadlock` is a flag and `printed` holds the lines of `print_deadlock`, newest first.
pub mod Walk
mod Clean
pub mod Complete
pub mod Total
pub mod Exact
use learning_c.Common.{
  ℕ, zero, suc, ◌+◌, Bool, true, false, List, [], ◌∷◌, reverse, tail, ltb, ◌==◌, if◌then◌else◌,
  length, get_elem?, update, Run, ok, fault, out_of_fuel, ◌>>=◌, access,
}
use learning_c.Deadlock.Graph.{Pair, Vertex, TaskGraph, max_size, search_vertex}

pub record Search : Type 0 where
  pub visited : ℕ → Bool
  pub path : List ℕ
  pub deadlock : Bool
  pub printed : List (List ℕ)

-- `tg->path[tg->k++] = idx`; the array has MAX + 1 entries
abbrev pub push : ℕ → Search → Run Search
push idx s =
    if ltb (length s.path) (max_size + 1) then ok (record s { path = idx ∷ s.path }) else fault

-- `tg->k--`
abbrev pub pop : Search → Search
pop s = record s { path = tail s.path }

abbrev pub mark : ℕ → Search → Search
mark idx s = record s { visited = update s.visited idx true }

-- the `while` loops over a chain: `visit` is the body
unfoldable pub each : (Pair → Search → Run Search) → List Pair → Search → Run Search
each visit [] s = ok s
each visit (p ∷ ps) s = visit p s >>= each visit ps

-- the first inner loop of `search_for_cycle`, rounds 0 to n - 1
unfoldable pub reset_visited : ℕ → ℕ → (ℕ → Bool) → ℕ → Bool
reset_visited idx zero visited = visited
reset_visited idx (suc i) visited =
    let before = reset_visited idx i visited in if i == idx then before else update before i false

module _ (g : TaskGraph) where
  -- the threads that stand on a path, in the order of the list
  abbrev pub thread_ids : List ℕ → Run (List ℕ)
  thread_ids [] = ok []
  thread_ids (i ∷ is) = do
    v ← access (get_elem? g.vertex_list i)
    ts ← thread_ids is
    ok (v.pair.th_id ∷ ts)

  unfoldable pub print_deadlock : Search → Run Search
  print_deadlock s = do
    line ← thread_ids (reverse s.path)
    ok (record s { printed = line ∷ s.printed })

  -- the body of the loop in `DFS`
  abbrev pub descend : (ℕ → Search → Run Search) → Pair → Search → Run Search
  descend dfs p s = do i ← access (search_vertex g p); t ← dfs i s; ok (pop t)

  unfoldable pub dfs : ℕ → ℕ → Search → Run Search
  dfs zero idx s = out_of_fuel
  dfs (suc fuel) idx s = do
    ver ← access (get_elem? g.vertex_list idx)
    if s.visited idx
        then (do
          hit ← push idx s
          shown ← print_deadlock hit
          ok (record shown { deadlock = true }))
        else (do pushed ← push idx (mark idx s); each (descend (dfs fuel)) ver.next pushed)

  -- the body of the loop in `search_for_cycle`
  unfoldable pub restart : ℕ → ℕ → Pair → Search → Run Search
  restart fuel idx p s = do
    i ← access (search_vertex g p)
    dfs fuel i
        (record s { visited = reset_visited idx (length g.vertex_list) s.visited; path = idx ∷ [] })

  unfoldable pub search_for_cycle : ℕ → ℕ → Search → Run Search
  search_for_cycle fuel idx s = do
    ver ← access (get_elem? g.vertex_list idx)
    each (restart fuel idx) ver.next (record (mark idx s) { path = idx ∷ [] })

  -- the loop of `check_dead_lock` with `rounds` left, at index `i`
  unfoldable pub check_from : ℕ → ℕ → ℕ → Search → Run Search
  check_from fuel zero i s = ok s
  check_from fuel (suc rounds) i s = elim s.deadlock [
    | true ↦ ok s
    | false ↦ search_for_cycle fuel i s >>= check_from fuel rounds (suc i)
  ]

  -- `DFS` is at most as deep as there are vertices, and one call more ends at a vertex met before.
  unfoldable pub check_dead_lock : Search → Run Search
  check_dead_lock s =
      let n = length g.vertex_list in check_from (n + 1) n 0 (record s { deadlock = false })
