-- ===== src/Deadlock/Cycle/Complete.antt =====
-- deadlock/deadlock.cpp, `check_dead_lock`: the whole search with the flag down or up at its end.
use learning_c.Common.{
  ℕ, zero, suc, ◌+◌, ◌<◌, ◌≤◌, ◌≡◌, ◌≢◌, ◌⊎◌, ◌∙◌, sym, refl, subst, inl, inr, true, false, some,
  List, [], ◌∷◌, Memᴰ, arith, length, get_elem?, get_elem?-lt, ok, ◌>>=◌, >>=-eq-ok, access,
  Bool-cases,
}
use mathlib.Core.List.Memᴰ
use native.Mathlib.Decide.{dec_lt}
use learning_c.Deadlock.Graph.{Pair, Vertex, TaskGraph, search_vertex}
use learning_c.Deadlock.Cycle.{Search, each, restart, search_for_cycle, check_from, check_dead_lock}
use learning_c.Deadlock.Cycle.Clean.{Found, Clean, dfs-Clean}
use learning_c.Deadlock.Cycle.Walk.{Edge, Walk, one, more, dfs-Grows, reset_visited-root}

module _ (g : TaskGraph) where
  pub Walk-Found : {s t : Search} {i k : ℕ} → Clean g s t → Walk g i k → Found s t i → Found s t k
  Walk-Found {i} {k} c (one e) (a, b) = c.closed i k (a, b) e
  Walk-Found {i} c (more {j} e w) (a, b) = Walk-Found c w (c.closed i j (a, b) e)

  -- At `i`, or on a walk from there.
  abbrev pub Below : ℕ → ℕ → Type 0
  Below i v = (v ≡ i) ⊎ Walk g i v

  -- Below `i` no vertex has two that lead to it.
  abbrev pub OneWay : ℕ → Type 0
  OneWay i = (v w x : ℕ) → Below i v → Below i w → Edge g v x → Edge g w x → v ≡ w

  -- Nothing leads from `x` to the root, and there is one way to each vertex below `x`.
  abbrev Apart : ℕ → ℕ → Type 0
  Apart idx x = (x ≢ idx) × (¬ Walk g x idx) × OneWay x

  Below-Found : {s t : Search} {i v : ℕ} → Clean g s t → Found s t i → Below i v → Found s t v
  Below-Found c f (inl here) = ground arith
  Below-Found c f (inr walk) = Walk-Found c walk f

  -- What a search from `k` with the flag down says.
  pub record IsTree (k : ℕ) : Type 0 where
    pub acyclic : ¬ Walk g k k
    pub one_way : (x : ℕ) → Edge g k x → OneWay x

  restart-Apart :
      (fuel idx : ℕ) (p : Pair) (s t : Search)
      → restart g fuel idx p s ≡ ok t
      → t.deadlock ≡ false
      → s.visited idx ≡ true
      → (s.deadlock ≡ false) × ((x : ℕ) → search_vertex g p ≡ some x → Apart idx x)
  unfolding restart
  restart-Apart fuel idx p s t h q root =
      let (i, at, run) = >>=-eq-ok (access (search_vertex g p)) _ h in
      let (c, found) = dfs-Clean g fuel i _ t run q in
      let kept = reset_visited-root idx (length g.vertex_list) s.visited in
      (
        c.quiet,
        λ x e.
            let same : x ≡ i = ground arith in
            let reach =
              λ (v : ℕ) (b : Below x v). Below-Found c found.0 (subst (λ j. Below j v) same b) in
            (
              λ is_root. let (a, _) = found.0 in ground arith,
              λ walk.
                  let (unseen, _) = Walk-Found c (subst (λ j. Walk g j idx) same walk) found.0 in
                  ground arith,
              λ v w y b b'. c.alone v w y (reach v b) (reach w b'),
            ),
      )

  restart-keeps_root :
      (fuel idx : ℕ) (p : Pair) (s t : Search)
      → restart g fuel idx p s ≡ ok t
      → s.visited idx ≡ true
      → t.visited idx ≡ true
  unfolding restart
  restart-keeps_root fuel idx p s t h root =
      let (i, at, run) = >>=-eq-ok (access (search_vertex g p)) _ h in
      dfs-Grows g fuel i _ t run idx
        (reset_visited-root idx (length g.vertex_list) s.visited ∙ root)

  each-Apart :
      (fuel idx : ℕ) (ps : List Pair) (s t : Search)
      → each (restart g fuel idx) ps s ≡ ok t
      → t.deadlock ≡ false
      → s.visited idx ≡ true
      → (s.deadlock ≡ false)
        × ((p : Pair) → Memᴰ p ps → (x : ℕ) → search_vertex g p ≡ some x → Apart idx x)
  unfolding each
  each-Apart fuel idx [] s t h q root = (ground arith, λ p m. absurd (Memᴰ.not-nil m))
  each-Apart fuel idx (p ∷ ps) s t h q root =
      let (m, first, rest) = >>=-eq-ok (restart g fuel idx p s) (each (restart g fuel idx) ps) h in
      let marked = restart-keeps_root fuel idx p s m first root in
      let (after, later) = each-Apart fuel idx ps m t rest q marked in
      let (before, here) = restart-Apart fuel idx p s m first after root in
      (
        before,
        λ p' mem x e. elim (Memᴰ.cases_cons mem) [
          | inl same ↦ here x (subst (λ r. search_vertex g r ≡ some x) same e)
          | inr rest_of ↦ later p' rest_of x e
        ],
      )

  search_for_cycle-IsTree :
      (fuel idx : ℕ) (s t : Search)
      → search_for_cycle g fuel idx s ≡ ok t
      → t.deadlock ≡ false
      → (s.deadlock ≡ false) × IsTree idx
  unfolding search_for_cycle
  search_for_cycle-IsTree fuel idx s t h q =
      let (ver, at, run) = >>=-eq-ok (access (get_elem? g.vertex_list idx)) _ h in
      let (quiet, apart) = each-Apart fuel idx ver.next _ t run q (ground arith) in
      (
        quiet,
        record {
          acyclic = leaves ver (ground arith) apart;
          one_way = λ x (w, p, e, mem, to).
              let same : w ≡ ver = ground arith in
              (apart p (subst (λ u. Memᴰ p u.next) same mem) x to).2;
        },
      )
    where
      leaves :
          (ver : Vertex)
          → get_elem? g.vertex_list idx ≡ some ver
          → ((p : Pair) → Memᴰ p ver.next → (x : ℕ) → search_vertex g p ≡ some x → Apart idx x)
          → ¬ Walk g idx idx
      leaves ver at apart (one (w, p, e, mem, to)) =
          let same : w ≡ ver = ground arith in
          (apart p (subst (λ u. Memᴰ p u.next) same mem) idx to).0 refl
      leaves ver at apart (more {j} (w, p, e, mem, to) rest) =
          let same : w ≡ ver = ground arith in
          (apart p (subst (λ u. Memᴰ p u.next) same mem) j to).1 rest

  check_from-IsTree :
      (fuel rounds i : ℕ) (s t : Search)
      → check_from g fuel rounds i s ≡ ok t
      → t.deadlock ≡ false
      → (s.deadlock ≡ false) × ((k : ℕ) → i ≤ k → k < i + rounds → IsTree k)
  unfolding check_from
  check_from-IsTree fuel zero i s t h q = (ground arith, λ k lo hi. absurd (omega arith))
  check_from-IsTree fuel (suc rounds) i s t h q = elim (Bool-cases s.deadlock) [
    | inl raised ↦ absurd (ground arith)
    | inr down ↦
        let run : (search_for_cycle g fuel i s >>= check_from g fuel rounds (suc i)) ≡ ok t =
          rw (down, check_from) at h in
        let (m, first, rest) =
          >>=-eq-ok (search_for_cycle g fuel i s) (check_from g fuel rounds (suc i)) run in
        let (quiet, later) = check_from-IsTree fuel rounds (suc i) m t rest q in
        let (_, here) = search_for_cycle-IsTree fuel i s m first quiet in
        (
          down,
          λ k lo hi. elim (dec_lt i k) [
            | yes above ↦ later k (omega arith) (omega arith)
            | no at ↦ let same : k ≡ i = omega arith in subst IsTree (sym same) here
          ],
        )
  ]

  Walk-lt : {i k : ℕ} → Walk g i k → i < length g.vertex_list
  Walk-lt {i} (one (w, _, at, _, _)) = get_elem?-lt g.vertex_list i at
  Walk-lt {i} (more (w, _, at, _, _) _) = get_elem?-lt g.vertex_list i at

-- The flag down at the end of the check: every root is the root of a tree.
check_dead_lock-IsTree :
    (g : TaskGraph) (s t : Search)
    → check_dead_lock g s ≡ ok t
    → t.deadlock ≡ false
    → (k : ℕ) → k < length g.vertex_list
    → IsTree g k
unfolding check_dead_lock
check_dead_lock-IsTree g s t h down k lt =
    let n = length g.vertex_list in
    let (_, trees) = check_from-IsTree g (n + 1) n 0 (record s { deadlock = false }) t h down in
    trees k (omega arith) (omega arith)

-- If some vertex of the wait-for graph lies on a cycle, a finished check has raised the flag.
pub check_dead_lock_complete :
    (g : TaskGraph) (s t : Search) {k : ℕ}
    → check_dead_lock g s ≡ ok t
    → Walk g k k
    → t.deadlock ≡ true
check_dead_lock_complete g s t {k} h cycle = elim (Bool-cases t.deadlock) [
  | inl raised ↦ raised
  | inr down ↦ absurd ((check_dead_lock-IsTree g s t h down k (Walk-lt g cycle)).acyclic cycle)
]

-- The flag goes up without a cycle as well: it does wherever two vertices at or below a successor
-- of some vertex both have an edge to a third one.
pub check_dead_lock-false_alarm :
    (g : TaskGraph) (s t : Search) (k i v w x : ℕ)
    → check_dead_lock g s ≡ ok t
    → Edge g k i
    → Below g i v
    → Below g i w
    → v ≢ w
    → Edge g v x
    → Edge g w x
    → t.deadlock ≡ true
check_dead_lock-false_alarm g s t k i v w x h root below_v below_w ne e e' =
    elim (Bool-cases t.deadlock) [
      | inl raised ↦ raised
      | inr down ↦
          let tree = check_dead_lock-IsTree g s t h down k (Walk-lt g (one root)) in
          absurd (ne (tree.one_way i root v w x below_v below_w e e'))
    ]
