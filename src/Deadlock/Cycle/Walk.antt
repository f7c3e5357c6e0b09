-- ===== src/Deadlock/Cycle/Walk.antt =====
-- deadlock/deadlock.cpp: walks of the wait-for graph over the indices of `vertex_list`, and what a
-- call of `DFS` does.
use learning_c.Common.{
  ℕ, zero, suc, ◌≡◌, ◌≢◌, ◌<◌, refl, ◌⊎◌, inl, inr, Bool, true, false, some, List, [], ◌∷◌, Memᴰ,
  arith, get_elem?, ok, >>=-eq-ok, access, Bool-cases, Option-cases, Run,
}
use learning_c.Deadlock.Graph.{Pair, Vertex, TaskGraph, search_vertex}
use learning_c.Deadlock.Cycle.{Search, pop, mark, print_deadlock, each, descend, dfs, reset_visited}

-- The vertex at index `i` has a node in its chain whose thread stands at index `j`.
abbrev pub Edge : TaskGraph → ℕ → ℕ → Type 0
Edge g i j =
    (w : Vertex) × (p : Pair) × (get_elem? g.vertex_list i ≡ some w)
    × Memᴰ p w.next
    × (search_vertex g p ≡ some j)

-- Walks of one edge at least.
pub data Walk (g : TaskGraph) : ℕ → ℕ → Type 0 where
  one : {i j : ℕ} → Edge g i j → Walk g i j
  more : {i j k : ℕ} → Edge g i j → Walk g j k → Walk g i k

pub Walk-snoc : {g : TaskGraph} {i j k : ℕ} → Walk g i j → Edge g j k → Walk g i k
Walk-snoc (one e) f = more e (one f)
Walk-snoc (more e w) f = more e (Walk-snoc w f)

-- The root keeps its mark when the others are taken away.
pub reset_visited-root :
    (idx n : ℕ) (visited : ℕ → Bool) → reset_visited idx n visited idx ≡ visited idx
unfolding reset_visited
reset_visited-root idx zero visited = refl
reset_visited-root idx (suc i) visited = ground (arith, reset_visited-root idx i visited)

-- All other marks below `n` are taken away.
pub reset_visited-other :
    (idx n : ℕ) (visited : ℕ → Bool) (w : ℕ)
    → w < n
    → w ≢ idx
    → reset_visited idx n visited w ≡ false
unfolding reset_visited
reset_visited-other idx zero visited w lt ne = absurd (omega arith)
reset_visited-other idx (suc i) visited w lt ne =
    ground (arith, reset_visited-other idx i visited w)

module _ (g : TaskGraph) where
  -- A call that returns has met a visited vertex, or has gone through the chain of a new one.
  pub dfs-suc :
      (fuel idx : ℕ) (s t : Search)
      → dfs g (suc fuel) idx s ≡ ok t
      → (ver : Vertex) × (get_elem? g.vertex_list idx ≡ some ver)
        × ((s.visited idx ≡ true) × (t.deadlock ≡ true)
            ⊎ (s.visited idx ≡ false)
              × (each
                    (descend g (dfs g fuel))
                    ver.next
                    (record (mark idx s) { path = idx ∷ s.path })
                  ≡ ok t))
  unfolding dfs
  dfs-suc fuel idx s t h = elim (Option-cases (get_elem? g.vertex_list idx)) [
    | inl e ↦ absurd (ground arith)
    | inr (ver, e) ↦ (ver, e, ground arith)
  ]

  -- Marks are never taken away within one call of `DFS`.
  abbrev pub Grows : Search → Search → Type 0
  Grows s t = (w : ℕ) → s.visited w ≡ true → t.visited w ≡ true

  each-Grows :
      (visit : Pair → Search → Run Search)
      → ((p : Pair) (s t : Search) → visit p s ≡ ok t → Grows s t)
      → (ps : List Pair) (s t : Search) → each visit ps s ≡ ok t
      → Grows s t
  unfolding each
  each-Grows visit keep [] s t h w seen = ground arith
  each-Grows visit keep (p ∷ ps) s t h w seen =
      let (m, first, rest) = >>=-eq-ok (visit p s) (each visit ps) h in
      each-Grows visit keep ps m t rest w (keep p s m first w seen)

  -- What a call of `dfs` inside `descend` did, with the index that it was made at.
  pub descend-eq-ok :
      (call : ℕ → Search → Run Search) (p : Pair) (s t : Search)
      → descend g call p s ≡ ok t
      → (i : ℕ) × (u : Search) × (search_vertex g p ≡ some i) × (call i s ≡ ok u) × (t ≡ pop u)
  descend-eq-ok call p s t h =
      let (i, at, run) = >>=-eq-ok (access (search_vertex g p)) _ h in
      let (u, inner, out) = >>=-eq-ok (call i s) _ run in (i, u, ground arith, inner, ground arith)

  pub dfs-Grows : (fuel idx : ℕ) (s t : Search) → dfs g fuel idx s ≡ ok t → Grows s t
  unfolding dfs print_deadlock
  dfs-Grows zero idx s t h w seen = cc
  dfs-Grows (suc fuel) idx s t h w seen = elim (Option-cases (get_elem? g.vertex_list idx)) [
    | inl e ↦ absurd (ground arith)
    | inr (ver, e) ↦ elim (Bool-cases (s.visited idx)) [
      | inl old ↦ ground arith
      | inr new ↦
          each-Grows _
            (λ p a b run v m.
              let (i, u, _, inner, out) = descend-eq-ok (dfs g fuel) p a b run in
              ground (arith, dfs-Grows fuel i a u inner v m))
            ver.next (record (mark idx s) { path = idx ∷ s.path }) t (ground arith) w (ground arith)
    ]
  ]
