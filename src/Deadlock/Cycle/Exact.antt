-- ===== src/Deadlock/Cycle/Exact.antt =====
-- deadlock/deadlock.cpp, `check_dead_lock` on graphs where every thread waits for one other at most.
use learning_c.Common.{
  ℕ, zero, suc, ◌+◌, ◌<◌, ◌≤◌, ◌≡◌, ◌↔◌, refl, inl, inr, ◌⊎◌, true, some, List, [], ◌∷◌, Memᴰ, ◌==◌,
  arith, length, get_elem?, get_elem?-lt, Run, subst, ok, ◌>>=◌, >>=-eq-ok, access, Bool-cases,
  Option-cases,
}
use learning_c.Deadlock.Graph.{Pair, Vertex, TaskGraph, search_vertex}
use learning_c.Deadlock.Graph.Valid.{IsValid}
use learning_c.Deadlock.Cycle.{
  Search, mark, each, dfs, restart, search_for_cycle, check_from, check_dead_lock,
}
use learning_c.Deadlock.Cycle.Walk.{
  Edge, Walk, one, Walk-snoc, dfs-suc, descend-eq-ok, reset_visited-other,
}
use learning_c.Deadlock.Cycle.Complete.{check_dead_lock_complete}
use learning_c.Deadlock.Cycle.Total.{check_dead_lock_total}

-- No chain has a second node.
abbrev pub WaitsOnce : TaskGraph → Type 0
WaitsOnce g = (i : ℕ) (w : Vertex) → get_elem? g.vertex_list i ≡ some w → length w.next ≤ 1

abbrev pub Cycle : TaskGraph → Type 0
Cycle g = (c : ℕ) × Walk g c c

module _ (g : TaskGraph) (single : WaitsOnce g) where
  abbrev n : ℕ
  n = length g.vertex_list

  -- Every marked vertex leads to `idx`.
  abbrev Leads : Search → ℕ → Type 0
  Leads s idx = (v : ℕ) → v < n → s.visited v ≡ true → Walk g v idx

  -- The flag was up before, or there is a cycle.
  abbrev Justified : Search → Type 0
  Justified s = (s.deadlock ≡ true) ⊎ Cycle g

  -- A loop over a chain of one node at most makes one round at most.
  each-single :
      (visit : Pair → Search → Run Search) (ps : List Pair) (s t : Search)
      → length ps ≤ 1
      → each visit ps s ≡ ok t
      → (s ≡ t) ⊎ ((p : Pair) × Memᴰ p ps × (visit p s ≡ ok t))
  unfolding each
  each-single visit [] s t h e = inl (ground arith)
  each-single visit (p ∷ []) s t h e =
      let (m, first, rest) = >>=-eq-ok (visit p s) (each visit []) e in
      inr (p, Memᴰ.head refl, ground arith)
  each-single visit (p ∷ q ∷ ps) s t h e = absurd (omega arith)

  dfs-Justified :
      (fuel idx : ℕ) (s t : Search)
      → Leads s idx
      → dfs g fuel idx s ≡ ok t
      → t.deadlock ≡ true
      → Justified s
  unfolding dfs
  dfs-Justified zero idx s t lead h up = cc
  dfs-Justified (suc fuel) idx s t lead h up =
      let (ver, at, split) = dfs-suc g fuel idx s t h in
      elim split [
        | inl (old, _) ↦ inr (idx, lead idx (get_elem?-lt g.vertex_list idx at) old)
        | inr (new, run) ↦
            let start = record (mark idx s) { path = idx ∷ s.path } in
            elim (each-single _ ver.next start t (single idx ver at) run) [
              | inl same ↦ inl (ground arith)
              | inr (p, mem, call) ↦
                  let (i, u, to, inner, out) = descend-eq-ok g (dfs g fuel) p start t call in
                  let edge : Edge g idx i = (ver, p, at, mem, to) in
                  dfs-Justified fuel i start u
                    (λ v lt seen. elim (Bool-cases (idx == v)) [
                      | inl here ↦
                          let same : idx ≡ v = ground arith in
                          subst (λ j. Walk g j i) same (one edge)
                      | inr other ↦ Walk-snoc (lead v lt (ground arith)) edge
                    ])
                    inner (ground arith)
            ]
      ]

  restart-Justified :
      (fuel idx : ℕ) (ver : Vertex) (p : Pair) (s t : Search)
      → get_elem? g.vertex_list idx ≡ some ver
      → Memᴰ p ver.next
      → restart g fuel idx p s ≡ ok t
      → t.deadlock ≡ true
      → Justified s
  unfolding restart
  restart-Justified fuel idx ver p s t at mem h up =
      let (i, to, run) = >>=-eq-ok (access (search_vertex g p)) _ h in
      let edge : Edge g idx i = (ver, p, at, mem, ground arith) in
      dfs-Justified fuel i _ t
        (λ v lt seen. elim (Bool-cases (idx == v)) [
          | inl here ↦ let same : idx ≡ v = ground arith in subst (λ j. Walk g j i) same (one edge)
          | inr other ↦
              absurd (ground (arith, reset_visited-other idx n s.visited v lt (ground arith)))
        ])
        run up

  root-Justified :
      (fuel idx : ℕ) (s t : Search)
      → search_for_cycle g fuel idx s ≡ ok t
      → t.deadlock ≡ true
      → Justified s
  unfolding search_for_cycle
  root-Justified fuel idx s t h up = elim (Option-cases (get_elem? g.vertex_list idx)) [
    | inl e ↦ absurd (ground arith)
    | inr (ver, at) ↦
        elim (each-single (restart g fuel idx) ver.next (record (mark idx s) { path = idx ∷ [] }) t
          (single idx ver at) (ground arith)) [
            | inl same ↦ inl (ground arith)
            | inr (p, mem, call) ↦ restart-Justified fuel idx ver p _ t at mem call up
          ]
  ]

  check_from-Justified :
      (fuel rounds i : ℕ) (s t : Search)
      → check_from g fuel rounds i s ≡ ok t
      → t.deadlock ≡ true
      → Justified s
  unfolding check_from
  check_from-Justified fuel zero i s t h up = inl (ground arith)
  check_from-Justified fuel (suc rounds) i s t h up = elim (Bool-cases s.deadlock) [
    | inl raised ↦ inl raised
    | inr down ↦
        let run : (search_for_cycle g fuel i s >>= check_from g fuel rounds (suc i)) ≡ ok t =
          rw (down, check_from) at h in
        let (m, first, rest) =
          >>=-eq-ok (search_for_cycle g fuel i s) (check_from g fuel rounds (suc i)) run in
        elim (check_from-Justified fuel rounds (suc i) m t rest up) [
          | inl raised ↦ root-Justified fuel i s m first raised
          | inr cycle ↦ inr cycle
        ]
  ]

-- On a valid graph in which no thread waits for two, the check ends, and at its end the flag is up
-- exactly when some vertex lies on a cycle.
pub check_dead_lock_iff :
    (g : TaskGraph) (s : Search)
    → IsValid g
    → WaitsOnce g
    → (t : Search) × (check_dead_lock g s ≡ ok t) × ((t.deadlock ≡ true) ↔ Cycle g)
unfolding check_dead_lock
check_dead_lock_iff g s valid single =
    let (t, run) = check_dead_lock_total g s valid in
    (
      t,
      run,
      (
        λ up.
            elim (check_from-Justified g single (length g.vertex_list + 1) (length g.vertex_list) 0
              _ t run up) [ inl raised ↦ absurd (ground arith) | inr cycle ↦ cycle ],
        λ (c, walk). check_dead_lock_complete g s t run walk,
      ),
    )
