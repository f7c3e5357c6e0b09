-- ===== src/Deadlock/Graph/Keep.antt =====
-- deadlock/deadlock.cpp: the operations of the section Digraph on valid graphs and full arrays.
use learning_c.Common.{
  ℕ, ◌+◌, ◌<◌, ◌≤◌, ◌≡◌, ◌∙◌, sym, subst, refl, inl, inr, ◌⊎◌, true, none, some, List, [], ◌∷◌,
  ◌++◌, Memᴰ, Memᴰ-concat, ◌==◌, arith, if◌then◌else◌, length, length-append, length-set, get_elem?,
  get_elem?-lt, get_elem?-set, get_elem?-concat, ok, Bool-cases, Option-cases,
}
use mathlib.Core.List.Memᴰ
use learning_c.Deadlock.Graph.{
  Pair, Vertex, TaskGraph, max_size, search_vertex, add_vertex, set_next, add_edge, unlink,
  remove_edge,
}
use learning_c.Deadlock.Graph.Valid.{
  IsValid, matches_refl, matches_symm, search_vertex-eq-some, search_vertex-eq-none,
}
use learning_c.Deadlock.Graph.Spec.{
  registered, grown, add_vertex-eq-ok, targets-add_vertex, search_vertex-grown,
  search_vertex-set_next,
}
use learning_c.Deadlock.Graph.Edges.{add_edge-eq-ok, remove_edge-eq-ok}

module _ (g : TaskGraph) (valid : IsValid g) where
  module _ (p : Pair) (missing : search_vertex g p ≡ none) where
    abbrev newcomer : Vertex
    newcomer = record { pair = p; next = [] }

    abbrev n : ℕ
    n = length g.vertex_list

    -- A vertex of the longer list is an old one or the newcomer.
    old_or_new :
        (i : ℕ) (w : Vertex)
        → get_elem? (grown g p).vertex_list i ≡ some w
        → (get_elem? g.vertex_list i ≡ some w) ⊎ (i ≡ n) × (w ≡ newcomer)
    old_or_new i w h = ground (arith, get_elem?-concat g.vertex_list newcomer i)

    grown-IsValid : n < max_size → IsValid (grown g p)
    grown-IsValid room = record {
      distinct = λ i j v w a b m. elim (old_or_new i v a) [
        | inl at ↦ elim (old_or_new j w b) [
          | inl at' ↦ valid.distinct i j v w at at' m
          | inr (_, new) ↦ absurd (ground (arith, search_vertex-eq-none g p i v missing at))
        ]
        | inr (last, new) ↦ elim (old_or_new j w b) [
          | inl at' ↦ absurd (
              ground
                (arith, search_vertex-eq-none g p j w missing at', matches_symm v.pair w.pair m))
          | inr (last', _) ↦ ground arith
        ]
      ];
      closed = λ i w q a mem. elim (old_or_new i w a) [
        | inl at ↦
            let (j, to) = valid.closed i w q at mem in
            (j, ground (arith, search_vertex-grown g p q))
        | inr (_, new) ↦
            let empty : w.next ≡ [] = ground arith in
            absurd (Memᴰ.not-nil (subst (Memᴰ q) empty mem))
      ];
      small = omega (arith, length-append g.vertex_list (newcomer ∷ []));
    }

  pub add_vertex-IsValid : (g' : TaskGraph) (p : Pair) → add_vertex g p ≡ ok g' → IsValid g'
  add_vertex-IsValid g' p h = elim (add_vertex-eq-ok g g' p h) [
    | inl (same, _) ↦ subst IsValid (sym same) valid
    | inr (missing, room, new) ↦ subst IsValid (sym new) (grown-IsValid p missing room)
  ]

  -- A chain of registered threads may take the place of any other.
  pub set_next-IsValid :
      (i : ℕ) (w : Vertex) (chain : List Pair)
      → get_elem? g.vertex_list i ≡ some w
      → ((q : Pair) → Memᴰ q chain → (j : ℕ) × (search_vertex g q ≡ some j))
      → IsValid (set_next g i w chain)
  set_next-IsValid i w chain at known = record {
    distinct = λ a b v x e e' m. ground (
      arith,
      stored a,
      stored b,
      valid.distinct a b v x,
      valid.distinct i b w x,
      valid.distinct a i v w,
      valid.distinct i i w w,
    );
    closed = λ a v q e mem. elim (Bool-cases (i == a)) [
      | inl here ↦
          let new : v.next ≡ chain = ground (arith, stored a) in
          let (j, to) = known q (subst (Memᴰ q) new mem) in
          (j, ground (arith, search_vertex-set_next g i w chain q))
      | inr other ↦
          let (j, to) = valid.closed a v q (ground (arith, stored a)) mem in
          (j, ground (arith, search_vertex-set_next g i w chain q))
    ];
    small = rw length-set valid.small;
  }
    where
      stored :
          (a : ℕ)
          → get_elem? (set_next g i w chain).vertex_list a
            ≡ (if i == a then some (record w { next = chain }) else get_elem? g.vertex_list a)
      stored a =
          get_elem?-set g.vertex_list i a (record w { next = chain })
            (get_elem?-lt g.vertex_list i at)

registered-eq-true :
    (g : TaskGraph) (p : Pair) → registered g p ≡ true → (j : ℕ) × (search_vertex g p ≡ some j)
unfolding registered
registered-eq-true g p h = elim (Option-cases (search_vertex g p)) [
  | inl missing ↦ absurd (ground arith)
  | inr found ↦ found
]

-- After `add_vertex` the thread is registered.
add_vertex-registered :
    (g g' : TaskGraph) (p : Pair) → add_vertex g p ≡ ok g' → registered g' p ≡ true
add_vertex-registered g g' p h =
    let (_, known) = targets-add_vertex g g' p p h in ground (arith, matches_refl p)

Memᴰ-unlink : (t : ℕ) (q : Pair) (ps : List Pair) → Memᴰ q (unlink t ps) → Memᴰ q ps
Memᴰ-unlink t q [] m = m
Memᴰ-unlink t q (p ∷ ps) m = elim (Bool-cases (p.th_id == t)) [
  | inl hit ↦
      let dropped : unlink t (p ∷ ps) ≡ ps = ground arith in Memᴰ.tail (subst (Memᴰ q) dropped m)
  | inr miss ↦
      let kept : unlink t (p ∷ ps) ≡ p ∷ unlink t ps = ground arith in
      elim (Memᴰ.cases_cons (subst (Memᴰ q) kept m)) [
        | inl same ↦ Memᴰ.head same
        | inr rest ↦ Memᴰ.tail (Memᴰ-unlink t q ps rest)
      ]
]

-- `add_edge` keeps a graph valid: threads stay registered once, edges lead to registered threads.
pub add_edge-IsValid :
    (g g' : TaskGraph) (u v : Pair) → IsValid g → add_edge g u v ≡ ok g' → IsValid g'
add_edge-IsValid g g' u v valid h =
    let (g₁, g₂, i, w, a, b, found, at, last) = add_edge-eq-ok g g' u v h in
    let valid₂ = add_vertex-IsValid g₁ (add_vertex-IsValid g valid g₁ u a) g₂ v b in
    let (j, target) = registered-eq-true g₂ v (add_vertex-registered g₁ g₂ v b) in
    subst IsValid (sym last) (
      set_next-IsValid g₂ valid₂ i w (w.next ++ v ∷ []) at (λ q mem.
        elim ((Memᴰ-concat q v w.next).0 mem) [
          | inl old ↦ valid₂.closed i w q at old
          | inr new ↦ (j, subst (λ r. search_vertex g₂ r ≡ some j) (sym new) target)
        ]))

-- `remove_edge` keeps a graph valid.
pub remove_edge-IsValid :
    (g g' : TaskGraph) (u v : Pair) → IsValid g → remove_edge g u v ≡ ok g' → IsValid g'
remove_edge-IsValid g g' u v valid h = elim (remove_edge-eq-ok g g' u v h) [
  | inl (same, _) ↦ subst IsValid (sym same) valid
  | inr r ↦
      let (i, found, w, at, new) = r.found in
      subst IsValid (sym new) (
        set_next-IsValid g valid i w (unlink v.th_id w.next) at
          (λ q mem. valid.closed i w q at (Memᴰ-unlink v.th_id q w.next mem)))
]

-- With room for a vertex `add_vertex` returns.
pub add_vertex_total :
    (g : TaskGraph) (p : Pair)
    → length g.vertex_list < max_size
    → (g' : TaskGraph) × (add_vertex g p ≡ ok g')
      × (length g'.vertex_list ≤ length g.vertex_list + 1)
      × (g'.lock_list ≡ g.lock_list)
unfolding add_vertex
add_vertex_total g p room = elim (Option-cases (search_vertex g p)) [
  | inl missing ↦ (
    grown g p,
    ground arith,
    omega (arith, length-append g.vertex_list (record { pair = p; next = [] } ∷ [])),
    refl,
  )
  | inr (i, found) ↦ (g, ground arith, omega arith, refl)
]

-- With room for two vertices `add_edge` returns.
pub add_edge_total :
    (g : TaskGraph) (u v : Pair)
    → length g.vertex_list + 2 ≤ max_size
    → (g' : TaskGraph) × (add_edge g u v ≡ ok g') × (g'.lock_list ≡ g.lock_list)
unfolding add_edge
add_edge_total g u v room =
    let (g₁, a, size, locks) = add_vertex_total g u (omega arith) in
    let (g₂, b, _, locks₂) = add_vertex_total g₁ v (omega arith) in
    let known = add_vertex-registered g g₁ u a in
    let (_, still) = targets-add_vertex g₁ g₂ v u b in
    let (i, found) = registered-eq-true g₂ u (ground arith) in
    let (w, at, _) = search_vertex-eq-some g₂ u i found in
    (set_next g₂ i w (w.next ++ v ∷ []), rw (a, b, found, at) refl, locks₂ ∙ locks)
