-- ===== src/Deadlock/Cycle/Clean.antt =====
-- deadlock/deadlock.cpp, `DFS`: a part of the search that ends with the flag down, what it visited,
-- and the edges among that.
use learning_c.Common.{
  ℕ, zero, suc, ◌≡◌, ◌⊎◌, subst, ◌==◌, inl, inr, true, false, some, List, [], ◌∷◌, Memᴰ, arith,
  get_elem?, ok, >>=-eq-ok, access, Bool-cases, Run,
}
use mathlib.Core.List.Memᴰ
use learning_c.Deadlock.Graph.{Pair, Vertex, TaskGraph, search_vertex}
use learning_c.Deadlock.Cycle.{Search, mark, each, descend, dfs}
use learning_c.Deadlock.Cycle.Walk.{Edge, dfs-suc}

-- The vertex `x` was met for the first time between `s` and `t`.
abbrev pub Found : Search → Search → ℕ → Type 0
Found s t x = (s.visited x ≡ false) × (t.visited x ≡ true)

module _ (g : TaskGraph) where
  -- From `s` to `t` marks are only added. The new ones are closed under edges among themselves, and
  -- no two of them have an edge to one vertex.
  pub record Clean (s t : Search) : Type 0 where
    pub quiet : s.deadlock ≡ false
    pub grows : (w : ℕ) → s.visited w ≡ true → t.visited w ≡ true
    pub closed : (w x : ℕ) → Found s t w → Edge g w x → Found s t x
    pub alone : (v w x : ℕ) → Found s t v → Found s t w → Edge g v x → Edge g w x → v ≡ w

  -- `x` was met from outside: none of the vertices met leads to it.
  abbrev pub Entered : Search → Search → ℕ → Type 0
  Entered s t x = Found s t x × ((w : ℕ) → Found s t w → ¬ Edge g w x)

  Clean-refl : (s : Search) → s.deadlock ≡ false → Clean s s
  Clean-refl s q = record {
    quiet = q;
    grows = λ w h. h;
    closed = λ w x f e. ground arith;
    alone = λ v w x f. ground arith;
  }

  module _ {s m t : Search} (a : Clean s m) (b : Clean m t) where
    first_or_second : (w : ℕ) → Found s t w → Found s m w ⊎ Found m t w
    first_or_second w (old, new) = elim (Bool-cases (m.visited w)) [
      | inl seen ↦ inl (old, seen)
      | inr unseen ↦ inr (unseen, new)
    ]

    -- The two parts share no target.
    apart_lem : (v w x : ℕ) → Found s m v → Found m t w → Edge g v x → ¬ Edge g w x
    apart_lem v w x f h e e' =
        let (_, now) = a.closed v x f e in let (not_yet, _) = b.closed w x h e' in ground arith

    Clean-trans : Clean s t
    Clean-trans = record {
      quiet = a.quiet;
      grows = λ w h. b.grows w (a.grows w h);
      closed = λ w x f e. elim (first_or_second w f) [
        | inl p ↦ let (before, mid) = a.closed w x p e in (before, b.grows x mid)
        | inr p ↦ let (mid, after) = b.closed w x p e in (ground (arith, a.grows x), after)
      ];
      alone = λ v w x f h e e'. elim (first_or_second v f) [
        | inl p ↦ elim (first_or_second w h) [
          | inl r ↦ a.alone v w x p r e e'
          | inr r ↦ absurd (apart_lem v w x p r e e')
        ]
        | inr p ↦ elim (first_or_second w h) [
          | inl r ↦ absurd (apart_lem w v x r p e' e)
          | inr r ↦ b.alone v w x p r e e'
        ]
      ];
    }

    Entered-first : (x : ℕ) → Entered s m x → Entered s t x
    Entered-first x ((old, now), none_to) = (
      (old, b.grows x now),
      λ w f e. elim (first_or_second w f) [
        | inl p ↦ none_to w p e
        | inr p ↦ let (not_yet, _) = b.closed w x p e in ground arith
      ],
    )

    Entered-second : (x : ℕ) → Entered m t x → Entered s t x
    Entered-second x ((not_yet, now), none_to) = (
      (ground (arith, a.grows x), now),
      λ w f e. elim (first_or_second w f) [
        | inl p ↦ let (_, early) = a.closed w x p e in ground arith
        | inr p ↦ none_to w p e
      ],
    )

  -- What one round of a loop over a chain promises.
  abbrev Explores : (Pair → Search → Run Search) → Type 0
  Explores visit =
      (p : Pair) (s t : Search)
      → visit p s ≡ ok t
      → t.deadlock ≡ false
      → Clean s t × ((x : ℕ) → search_vertex g p ≡ some x → Entered s t x)

  each-Clean :
      (visit : Pair → Search → Run Search)
      → Explores visit
      → (ps : List Pair) (s t : Search) → each visit ps s ≡ ok t
      → t.deadlock ≡ false
      → Clean s t × ((p : Pair) → Memᴰ p ps → (x : ℕ) → search_vertex g p ≡ some x → Entered s t x)
  unfolding each
  each-Clean visit ex [] s t h q = (ground (arith, Clean-refl s), λ p m. absurd (Memᴰ.not-nil m))
  each-Clean visit ex (p ∷ ps) s t h q =
      let (m, first, rest) = >>=-eq-ok (visit p s) (each visit ps) h in
      let (after, found) = each-Clean visit ex ps m t rest q in
      let (before, here) = ex p s m first after.quiet in
      (
        Clean-trans before after,
        λ p' mem x e. elim (Memᴰ.cases_cons mem) [
          | inl same ↦
              Entered-first before after x (here x (subst (λ r. search_vertex g r ≡ some x) same e))
          | inr later ↦ Entered-second before after x (found p' later x e)
        ],
      )

  -- The vertex itself is marked first; then its whole chain is gone through.
  module _ (idx : ℕ) (ver : Vertex) (path : List ℕ) (s t : Search)
      (here : get_elem? g.vertex_list idx ≡ some ver) (new : s.visited idx ≡ false) where
    abbrev marked : Search
    marked = record (mark idx s) { path = path }

    module _ (c : Clean marked t)
        (found : (p : Pair)
          → Memᴰ p ver.next
          → (x : ℕ) → search_vertex g p ≡ some x
          → Entered marked t x) where
      target-Entered : (x : ℕ) → Edge g idx x → Entered marked t x
      target-Entered x (v, p, e, mem, at) =
          let same : v ≡ ver = ground arith in found p (subst (λ u. Memᴰ p u.next) same mem) x at

      node-closed : (w x : ℕ) → Found s t w → Edge g w x → Found s t x
      node-closed w x f e = elim (Bool-cases (idx == w)) [
        | inl same ↦
            let itself : w ≡ idx = ground arith in
            let ((a, b), _) = target-Entered x (subst (λ j. Edge g j x) itself e) in
            (ground arith, b)
        | inr other ↦ let (a, b) = c.closed w x (ground arith) e in (ground arith, b)
      ]

      node-alone : (v w x : ℕ) → Found s t v → Found s t w → Edge g v x → Edge g w x → v ≡ w
      node-alone v w x f h e e' = elim (Bool-cases (idx == v)) [
        | inl same ↦ elim (Bool-cases (idx == w)) [
          | inl too ↦ ground arith
          | inr other ↦
              let itself : v ≡ idx = ground arith in
              let (_, none_to) = target-Entered x (subst (λ j. Edge g j x) itself e) in
              absurd (none_to w (ground arith) e')
        ]
        | inr apart ↦ elim (Bool-cases (idx == w)) [
          | inl too ↦
              let itself : w ≡ idx = ground arith in
              let (_, none_to) = target-Entered x (subst (λ j. Edge g j x) itself e') in
              absurd (none_to v (ground arith) e)
          | inr other ↦ c.alone v w x (ground arith) (ground arith) e e'
        ]
      ]

      -- An edge back to the vertex itself would have met its mark.
      node-entry : (w : ℕ) → Found s t w → ¬ Edge g w idx
      node-entry w f e = elim (Bool-cases (idx == w)) [
        | inl same ↦
            let itself : w ≡ idx = ground arith in
            let ((unmarked, _), _) = target-Entered idx (subst (λ j. Edge g j idx) itself e) in
            ground arith
        | inr other ↦ let (unmarked, _) = c.closed w idx (ground arith) e in ground arith
      ]

      node-Clean : Clean s t × Entered s t idx
      node-Clean = (
        record {
          quiet = c.quiet;
          grows = λ w h. c.grows w (ground arith);
          closed = node-closed;
          alone = node-alone;
        },
        ((new, c.grows idx (ground arith)), node-entry),
      )

  descend-Explores :
      (fuel : ℕ)
      → ((idx : ℕ) (s t : Search)
          → dfs g fuel idx s ≡ ok t
          → t.deadlock ≡ false
          → Clean s t × Entered s t idx)
      → Explores (descend g (dfs g fuel))
  descend-Explores fuel ih p s t h q =
      let (i, at, run) = >>=-eq-ok (access (search_vertex g p)) _ h in
      let (u, inner, out) = >>=-eq-ok (dfs g fuel i s) _ run in
      let (c, found) = ih i s u inner (ground arith) in
      (
        record {
          quiet = c.quiet;
          grows = λ w e. ground (arith, c.grows w);
          closed = λ w x f e. ground (arith, c.closed w x);
          alone = λ v w x f f' e e'. c.alone v w x (ground arith) (ground arith) e e';
        },
        λ x e.
            let same : i ≡ x = ground arith in
            subst (λ j. Entered s t j) same (ground arith, λ w f e'. found.1 w (ground arith) e'),
      )

  pub dfs-Clean :
      (fuel idx : ℕ) (s t : Search)
      → dfs g fuel idx s ≡ ok t
      → t.deadlock ≡ false
      → Clean s t × Entered s t idx
  unfolding dfs
  dfs-Clean zero idx s t h q = cc
  dfs-Clean (suc fuel) idx s t h q =
      let (ver, here, split) = dfs-suc g fuel idx s t h in
      elim split [
        | inl (_, hit) ↦ cc
        | inr (new, run) ↦
            let (c, found) =
              each-Clean _ (descend-Explores fuel (dfs-Clean fuel)) ver.next _ t run q in
            node-Clean idx ver (idx ∷ s.path) s t here new c found
      ]
