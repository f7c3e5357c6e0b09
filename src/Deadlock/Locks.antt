-- ===== src/Deadlock/Locks.antt =====
-- deadlock/deadlock.cpp: the table of locks and what the hook does round a lock operation. Each
-- function holds `tg->mutex` from its first line to its last, so it is one step. A `struct pair_t`
-- on the stack is not initialised: `junk` is what it holds before its fields are assigned.
pub mod Parts
pub mod Waits
pub mod Rounds
pub mod Returns
pub mod Stale
pub mod Table
use learning_c.Common.{
  ℕ, suc, Option, none, some, List, [], ◌∷◌, ◌==◌, if◌then◌else◌, get_elem?, set, Run, ok, ◌>>=◌,
  access, increment, decrement, is_zero,
}
use learning_c.Deadlock.Graph.{
  Pair, process, TaskGraph, add_vertex, verify_edge, add_edge, remove_edge,
}

-- the loop of `search_lock` from index `i` on
abbrev pub search_lock_from : ℕ → List Pair → ℕ → Option ℕ
search_lock_from lock [] i = none
search_lock_from lock (p ∷ ps) i =
    if p.lock_id == lock then some i else search_lock_from lock ps (suc i)

unfoldable pub search_lock : TaskGraph → ℕ → Option ℕ
search_lock g lock = search_lock_from lock g.lock_list 0

-- the loop of `search_empty_lock` from index `i` on
abbrev pub search_empty_from : List Pair → ℕ → Option ℕ
search_empty_from [] i = none
search_empty_from (p ∷ ps) i = if is_zero p.degress then some i else search_empty_from ps (suc i)

unfoldable pub search_empty_lock : TaskGraph → Option ℕ
search_empty_lock g = search_empty_from g.lock_list 0

abbrev pub set_lock : TaskGraph → ℕ → Pair → TaskGraph
set_lock g i p = record g { lock_list = set g.lock_list i p }

-- a stack variable with the thread and the type assigned
abbrev pub thread_pair : Pair → ℕ → Pair
thread_pair junk t = record junk { th_id = t; kind = process }

-- `if (!verify_edge(u, v)) add_edge(u, v)`
unfoldable pub link_edge : TaskGraph → Pair → Pair → Run TaskGraph
link_edge g u v = do linked ← verify_edge g u v; if linked then ok g else add_edge g u v

-- `if (verify_edge(u, v)) remove_edge(u, v)`
unfoldable pub unlink_edge : TaskGraph → Pair → Pair → Run TaskGraph
unlink_edge g u v = do linked ← verify_edge g u v; if linked then remove_edge g u v else ok g

-- the body of `lock_before` under `idx != -1`
unfoldable pub register_wait : Pair → TaskGraph → ℕ → ℕ → Run TaskGraph
register_wait junk g thread_id idx = do
  let u = thread_pair junk thread_id
  g₁ ← add_vertex g u
  entry ← access (get_elem? g₁.lock_list idx)
  let v = thread_pair junk entry.th_id
  g₂ ← add_vertex (set_lock g₁ idx (record entry { degress = increment entry.degress })) v
  link_edge g₂ u v

unfoldable pub lock_before : Pair → TaskGraph → ℕ → ℕ → Run TaskGraph
lock_before junk g thread_id lock = elim (search_lock g lock) [
  | none ↦ ok g
  | some idx ↦ register_wait junk g thread_id idx
]

-- the body of `lock_after` under `idx == -1`
unfoldable pub fill_empty : TaskGraph → ℕ → ℕ → Run TaskGraph
fill_empty g thread_id lock = do
  idx ← access (search_empty_lock g)
  entry ← access (get_elem? g.lock_list idx)
  ok (set_lock g idx (record entry { th_id = thread_id; lock_id = lock }))

-- the other body: the wait is over, and the lock has a new owner
unfoldable pub take_over : Pair → TaskGraph → ℕ → ℕ → Run TaskGraph
take_over junk g thread_id idx = do
  let u = thread_pair junk thread_id
  entry ← access (get_elem? g.lock_list idx)
  let v = thread_pair junk entry.th_id
  g₁ ← unlink_edge (set_lock g idx (record entry { degress = decrement entry.degress })) u v
  lowered ← access (get_elem? g₁.lock_list idx)
  ok (set_lock g₁ idx (record lowered { th_id = thread_id }))

unfoldable pub lock_after : Pair → TaskGraph → ℕ → ℕ → Run TaskGraph
lock_after junk g thread_id lock = elim (search_lock g lock) [
  | none ↦ fill_empty g thread_id lock
  | some idx ↦ take_over junk g thread_id idx
]

unfoldable pub unlock_after : TaskGraph → ℕ → Run TaskGraph
unlock_after g lock = do
  idx ← access (search_lock g lock)
  entry ← access (get_elem? g.lock_list idx)
  ok (if is_zero entry.degress then set_lock g idx (record entry { th_id = 0; lock_id = 0 }) else g)
