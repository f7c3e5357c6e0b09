-- ===== src/Deadlock/Graph.antt =====
-- deadlock/deadlock.cpp, section Digraph: `struct task_graph` as far as vertices, edges and locks
-- go. `vertex_list` is the array up to `vertex_num` and `lock_list` the array up to `lock_num`;
-- the chain of nodes behind a vertex, each owned by it alone, is a list. `malloc` is taken to
-- succeed. The index -1 is `none`.
pub mod Valid
pub mod Spec
pub mod Edges
pub mod Keep
use learning_c.Common.{
  ℕ, suc, Bool, true, false, ◌&&◌, ◌||◌, Option, none, some, List, [], ◌∷◌, ◌++◌, ltb, ◌==◌,
  if◌then◌else◌, length, get_elem?, set, Run, ok, fault, ◌>>=◌, access, ℤ,
}

-- `enum Type`
pub data Kind : Type 0 where
  process resource : Kind

abbrev pub same_kind : Kind → Kind → Bool
same_kind process process = true
same_kind process resource = false
same_kind resource process = false
same_kind resource resource = true

-- `struct pair_t`
pub record Pair : Type 0 where
  pub th_id : ℕ
  pub kind : Kind
  pub lock_id : ℕ
  pub degress : ℤ

-- `struct vertex_t` as an element of `vertex_list`
pub record Vertex : Type 0 where
  pub pair : Pair
  pub next : List Pair

pub record TaskGraph : Type 0 where
  pub vertex_list : List Vertex
  pub lock_list : List Pair

-- `MAX`, the size of both arrays
abbrev pub max_size : ℕ
max_size = 100010

-- the test of `search_vertex`
abbrev pub matches : Pair → Pair → Bool
matches p q = same_kind p.kind q.kind && p.th_id == q.th_id

-- the loop of `search_vertex` from index `i` on
abbrev pub search_from : Pair → List Vertex → ℕ → Option ℕ
search_from p [] i = none
search_from p (v ∷ vs) i = if matches v.pair p then some i else search_from p vs (suc i)

unfoldable pub search_vertex : TaskGraph → Pair → Option ℕ
search_vertex g p = search_from p g.vertex_list 0

unfoldable pub add_vertex : TaskGraph → Pair → Run TaskGraph
add_vertex g p = elim (search_vertex g p) [
  | some i ↦ ok g
  | none ↦
      if ltb (length g.vertex_list) max_size
      then ok (record g { vertex_list = g.vertex_list ++ record { pair = p; next = [] } ∷ [] })
      else fault
]

-- a write to the chain of the vertex at index `i`
abbrev pub set_next : TaskGraph → ℕ → Vertex → List Pair → TaskGraph
set_next g i w chain = record g { vertex_list = set g.vertex_list i (record w { next = chain }) }

-- the `while` loop of `add_edge` walks to the end of the chain
unfoldable pub add_edge : TaskGraph → Pair → Pair → Run TaskGraph
add_edge g u v = do
  g₁ ← add_vertex g u
  g₂ ← add_vertex g₁ v
  i ← access (search_vertex g₂ u)
  w ← access (get_elem? g₂.vertex_list i)
  ok (set_next g₂ i w (w.next ++ v ∷ []))

-- the `while` loop of `verify_edge`
abbrev pub has_thread : ℕ → List Pair → Bool
has_thread t [] = false
has_thread t (p ∷ ps) = (p.th_id == t) || has_thread t ps

-- The walk begins at the vertex itself, so its own thread is found as well.
unfoldable pub verify_edge : TaskGraph → Pair → Pair → Run Bool
verify_edge g u v = if length g.vertex_list == 0 then ok false else elim (search_vertex g u) [
  | none ↦ ok false
  | some i ↦ do w ← access (get_elem? g.vertex_list i); ok (has_thread v.th_id (w.pair ∷ w.next))
]

-- the `while` loop of `remove_edge`: the first node with the thread is unlinked
abbrev pub unlink : ℕ → List Pair → List Pair
unlink t [] = []
unlink t (p ∷ ps) = if p.th_id == t then ps else p ∷ unlink t ps

unfoldable pub remove_edge : TaskGraph → Pair → Pair → Run TaskGraph
remove_edge g u v = elim (search_vertex g u) [
  | none ↦ ok g
  | some i ↦ elim (search_vertex g v) [
    | none ↦ ok g
    | some j ↦ do
      w ← access (get_elem? g.vertex_list i)
      ok (set_next g i w (unlink v.th_id w.next))
  ]
]
