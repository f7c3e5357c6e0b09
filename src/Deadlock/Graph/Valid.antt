-- ===== src/Deadlock/Graph/Valid.antt =====
-- deadlock/deadlock.cpp: where `search_vertex` looks, and the graphs that the functions of the
-- Digraph section build.
use learning_c.Common.{
  ◌∙◌, sym, none, false, Option-cases, zero, ℕ, suc, ◌+◌, ◌≤◌, ◌≡◌, refl, inl, inr, subst, true,
  some, List, [], ◌∷◌, Memᴰ, ◌==◌, ◌&&◌, arith, length, get_elem?, Bool-cases,
}
use learning_c.Deadlock.Graph.{
  Kind, process, resource, same_kind, Pair, Vertex, TaskGraph, max_size, matches, search_from,
  search_vertex,
}

pub same_kind_trans : (a b c : Kind) → same_kind a b ≡ true → same_kind a c ≡ same_kind b c
same_kind_trans process process c h = refl
same_kind_trans process resource c h = cc
same_kind_trans resource process c h = cc
same_kind_trans resource resource c h = refl

pub matches_refl : (p : Pair) → matches p p ≡ true
matches_refl p = kinds p.kind p
  where
    kinds : (k : Kind) (q : Pair) → same_kind k k && q.th_id == q.th_id ≡ true
    kinds process q = ground arith
    kinds resource q = ground arith

pub matches_trans : (p q r : Pair) → matches p q ≡ true → matches p r ≡ matches q r
matches_trans p q r h = ground (arith, same_kind_trans p.kind q.kind r.kind)

pub same_kind-right : (a b c : Kind) → same_kind a b ≡ true → same_kind c a ≡ same_kind c b
same_kind-right process process c h = refl
same_kind-right process resource c h = cc
same_kind-right resource process c h = cc
same_kind-right resource resource c h = refl

pub matches-right : (p q a : Pair) → matches p q ≡ true → matches a p ≡ matches a q
matches-right p q a h = ground (arith, same_kind-right p.kind q.kind a.kind)

pub matches_symm : (p q : Pair) → matches p q ≡ true → matches q p ≡ true
matches_symm p q h = sym (matches_trans p q p h) ∙ matches_refl p

-- The index found is in range, and a vertex with the thread and the type stands there.
search_from-eq-some :
    (p : Pair) (vs : List Vertex) (i j : ℕ)
    → search_from p vs i ≡ some j
    → (d : ℕ) × (w : Vertex) × (j ≡ i + d) × (get_elem? vs d ≡ some w) × (matches w.pair p ≡ true)
search_from-eq-some p [] i j h = absurd (ground arith)
search_from-eq-some p (v ∷ vs) i j h = elim (Bool-cases (matches v.pair p)) [
  | inl hit ↦ (0, v, ground arith, refl, hit)
  | inr miss ↦
      let (d, w, at, got, good) = search_from-eq-some p vs (suc i) j (rw miss at h) in
      (suc d, w, omega arith, got, good)
]

pub search_vertex-eq-some :
    (g : TaskGraph) (p : Pair) (j : ℕ)
    → search_vertex g p ≡ some j
    → (w : Vertex) × (get_elem? g.vertex_list j ≡ some w) × (matches w.pair p ≡ true)
unfolding search_vertex
search_vertex-eq-some g p j h =
    let (d, w, at, got, good) = search_from-eq-some p g.vertex_list 0 j h in
    let same : d ≡ j = omega arith in
    (w, subst (λ k. get_elem? g.vertex_list k ≡ some w) same got, good)

-- The search sees the thread and the type alone.
pub search_vertex-cong :
    (g : TaskGraph) (p q : Pair) → matches p q ≡ true → search_vertex g p ≡ search_vertex g q
unfolding search_vertex
search_vertex-cong g p q h = go g.vertex_list 0
  where
    go : (vs : List Vertex) (i : ℕ) → search_from p vs i ≡ search_from q vs i
    go [] i = refl
    go (v ∷ vs) i = rw (matches-right p q v.pair h, go vs (suc i))

search_from-eq-none :
    (p : Pair) (vs : List Vertex) (i j : ℕ) (w : Vertex)
    → search_from p vs i ≡ none
    → get_elem? vs j ≡ some w
    → matches w.pair p ≡ false
search_from-eq-none p [] i j w h e = absurd (ground arith)
search_from-eq-none p (v ∷ vs) i zero w h e = ground arith
search_from-eq-none p (v ∷ vs) i (suc j) w h e =
    ground (arith, search_from-eq-none p vs (suc i) j w)

-- No vertex with the thread and the type is left out.
pub search_vertex-eq-none :
    (g : TaskGraph) (p : Pair) (j : ℕ) (w : Vertex)
    → search_vertex g p ≡ none
    → get_elem? g.vertex_list j ≡ some w
    → matches w.pair p ≡ false
unfolding search_vertex
search_vertex-eq-none g p j w h e = search_from-eq-none p g.vertex_list 0 j w h e

-- Threads are registered once, every edge leads to a registered thread, the array is large enough.
pub record IsValid (g : TaskGraph) : Type 0 where
  pub distinct :
      (i j : ℕ) (v w : Vertex)
      → get_elem? g.vertex_list i ≡ some v
      → get_elem? g.vertex_list j ≡ some w
      → matches v.pair w.pair ≡ true
      → i ≡ j
  pub closed :
      (i : ℕ) (w : Vertex) (p : Pair)
      → get_elem? g.vertex_list i ≡ some w
      → Memᴰ p w.next
      → (j : ℕ) × (search_vertex g p ≡ some j)
  pub small : length g.vertex_list ≤ max_size

module _ (g : TaskGraph) (valid : IsValid g) where
  -- A vertex is found at its own index.
  pub search_vertex-at :
      (i : ℕ) (w : Vertex) (p : Pair)
      → get_elem? g.vertex_list i ≡ some w
      → matches w.pair p ≡ true
      → search_vertex g p ≡ some i
  search_vertex-at i w p at good = elim (Option-cases (search_vertex g p)) [
    | inl missing ↦ absurd (ground (arith, search_vertex-eq-none g p i w))
    | inr (j, found) ↦
        let (v, there, same) = search_vertex-eq-some g p j found in
        let equal : i ≡ j =
          valid.distinct i j w v at there
            (matches_trans w.pair p v.pair good ∙ matches_symm v.pair p same) in
        ground arith
  ]
