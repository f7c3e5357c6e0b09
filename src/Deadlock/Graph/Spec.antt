-- ===== src/Deadlock/Graph/Spec.antt =====
-- deadlock/deadlock.cpp: the graph as a map from threads to the chains behind them, and each
-- operation in its terms.
use learning_c.Common.{
  ℕ, zero, suc, ◌+◌, ◌<◌, ◌≡◌, ◌∙◌, sym, subst, refl, inl, inr, ◌⊎◌, Bool, true, false, ◌||◌,
  Option, none, some, List, [], ◌∷◌, ◌++◌, arith, if◌then◌else◌, length, set, get_elem?,
  get_elem?-lt, get_elem?-set, get_elem?-concat, ok, Option-cases,
}
use learning_c.Deadlock.Graph.{
  Pair, Vertex, TaskGraph, max_size, matches, search_from, search_vertex, add_vertex, set_next,
}
use learning_c.Deadlock.Graph.Valid.{matches_trans, search_vertex-eq-some, search_vertex-cong}

abbrev chain_at : Option Vertex → List Pair
chain_at none = []
chain_at (some w) = w.next

-- The chain behind a thread; empty for a thread that is not registered.
unfoldable pub targets : TaskGraph → Pair → List Pair
targets g u = elim (search_vertex g u) [ none ↦ [] | some i ↦ chain_at (get_elem? g.vertex_list i) ]

unfoldable pub registered : TaskGraph → Pair → Bool
registered g u = elim (search_vertex g u) [ none ↦ false | some i ↦ true ]

search_from-concat :
    (p : Pair) (vs : List Vertex) (v : Vertex) (i : ℕ)
    → search_from p (vs ++ v ∷ []) i ≡ (elim (search_from p vs i) [
      | none ↦ if matches v.pair p then some (i + length vs) else none
      | some j ↦ some j
    ])
search_from-concat p [] v i = ground arith
search_from-concat p (w ∷ vs) v i = ground (arith, search_from-concat p vs v (suc i))

search_from-set :
    (p : Pair) (vs : List Vertex) (d : ℕ) (w : Vertex) (chain : List Pair) (i : ℕ)
    → get_elem? vs d ≡ some w
    → search_from p (set vs d (record w { next = chain })) i ≡ search_from p vs i
search_from-set p [] d w chain i h = refl
search_from-set p (v ∷ vs) zero w chain i h = ground arith
search_from-set p (v ∷ vs) (suc d) w chain i h = rw (search_from-set p vs d w chain (suc i) h)

pub targets-eq :
    (g : TaskGraph) (u : Pair) (i : ℕ) (w : Vertex)
    → search_vertex g u ≡ some i
    → get_elem? g.vertex_list i ≡ some w
    → targets g u ≡ w.next
unfolding targets
targets-eq g u i w found at = ground arith

-- the graph after a new vertex
abbrev pub grown : TaskGraph → Pair → TaskGraph
grown g p = record g { vertex_list = g.vertex_list ++ record { pair = p; next = [] } ∷ [] }

pub add_vertex-eq-ok :
    (g g' : TaskGraph) (p : Pair)
    → add_vertex g p ≡ ok g'
    → (g' ≡ g) × (registered g p ≡ true)
      ⊎ (search_vertex g p ≡ none) × (length g.vertex_list < max_size) × (g' ≡ grown g p)
unfolding add_vertex registered
add_vertex-eq-ok g g' p h = ground arith

pub search_vertex-grown :
    (g : TaskGraph) (p q : Pair)
    → search_vertex (grown g p) q ≡ (elim (search_vertex g q) [
      | none ↦ if matches p q then some (length g.vertex_list) else none
      | some j ↦ some j
    ])
unfolding search_vertex
search_vertex-grown g p q =
    ground (arith, search_from-concat q g.vertex_list (record { pair = p; next = [] }) 0)

targets-grown : (g : TaskGraph) (p q : Pair) → targets (grown g p) q ≡ targets g q
unfolding targets
targets-grown g p q = elim (Option-cases (search_vertex g q)) [
  | inl missing ↦ ground (
    arith,
    search_vertex-grown g p q,
    get_elem?-concat g.vertex_list (record { pair = p; next = [] }) (length g.vertex_list),
  )
  | inr (j, found) ↦
      let (w, at, _) = search_vertex-eq-some g q j found in
      ground (
        arith,
        search_vertex-grown g p q,
        get_elem?-lt g.vertex_list j at,
        get_elem?-concat g.vertex_list (record { pair = p; next = [] }) j,
      )
]

registered-grown :
    (g : TaskGraph) (p q : Pair) → registered (grown g p) q ≡ (matches p q || registered g q)
unfolding registered
registered-grown g p q = ground (arith, search_vertex-grown g p q)

registered-cong :
    (g : TaskGraph) (p q : Pair) → matches p q ≡ true → registered g p ≡ registered g q
unfolding registered
registered-cong g p q h = ground (arith, search_vertex-cong g p q h)

pub targets-cong : (g : TaskGraph) (p q : Pair) → matches p q ≡ true → targets g p ≡ targets g q
unfolding targets
targets-cong g p q h = ground (arith, search_vertex-cong g p q h)

-- A new thread has an empty chain, and nothing else changes.
pub targets-add_vertex :
    (g g' : TaskGraph) (p q : Pair)
    → add_vertex g p ≡ ok g'
    → (targets g' q ≡ targets g q) × (registered g' q ≡ (matches p q || registered g q))
targets-add_vertex g g' p q h = elim (add_vertex-eq-ok g g' p h) [
  | inl (same, old) ↦ ground (arith, registered-cong g p q)
  | inr (_, _, new) ↦
      subst (λ r. (targets r q ≡ targets g q) × (registered r q ≡ (matches p q || registered g q)))
        (sym new) (targets-grown g p q, registered-grown g p q)
]

pub search_vertex-set_next :
    (g : TaskGraph) (i : ℕ) (w : Vertex) (chain : List Pair) (q : Pair)
    → get_elem? g.vertex_list i ≡ some w
    → search_vertex (set_next g i w chain) q ≡ search_vertex g q
unfolding search_vertex
search_vertex-set_next g i w chain q h = search_from-set q g.vertex_list i w chain 0 h

-- Two threads at one index are one thread.
matches_at :
    (g : TaskGraph) (u q : Pair) (i : ℕ)
    → search_vertex g u ≡ some i
    → search_vertex g q ≡ some i
    → matches u q ≡ true
matches_at g u q i a b =
    let (v, at, good) = search_vertex-eq-some g u i a in
    let (w, at', good') = search_vertex-eq-some g q i b in
    let same : v ≡ w = ground arith in
    sym (matches_trans v.pair u q good) ∙ subst (λ x. matches x.pair q ≡ true) (sym same) good'

-- A write to the chain of one thread is seen at that thread alone.
pub targets-set_next :
    (g : TaskGraph) (u q : Pair) (i : ℕ) (w : Vertex) (chain : List Pair)
    → search_vertex g u ≡ some i
    → get_elem? g.vertex_list i ≡ some w
    → targets (set_next g i w chain) q ≡ (if matches u q then chain else targets g q)
unfolding targets
targets-set_next g u q i w chain found at =
    let lt = get_elem?-lt g.vertex_list i at in
    let kept = search_vertex-set_next g i w chain q at in
    elim (Option-cases (search_vertex g q)) [
      | inl missing ↦ ground (arith, search_vertex-cong g u q)
      | inr (j, there) ↦ ground (
        arith,
        search_vertex-cong g u q,
        matches_at g u q i found,
        get_elem?-set g.vertex_list i j (record w { next = chain }) lt,
      )
    ]

pub registered-set_next :
    (g : TaskGraph) (i : ℕ) (w : Vertex) (chain : List Pair) (q : Pair)
    → get_elem? g.vertex_list i ≡ some w
    → registered (set_next g i w chain) q ≡ registered g q
unfolding registered
registered-set_next g i w chain q h = ground (arith, search_vertex-set_next g i w chain q h)
