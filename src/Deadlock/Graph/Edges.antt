-- ===== src/Deadlock/Graph/Edges.antt =====
-- deadlock/deadlock.cpp: `add_edge`, `remove_edge` and `verify_edge` in terms of the chains.
use learning_c.Common.{
  ℕ, ◌≡◌, inl, inr, ◌⊎◌, true, false, ◌&&◌, ◌||◌, none, some, [], ◌∷◌, ◌++◌, ◌==◌, arith,
  if◌then◌else◌, get_elem?, get_elem?-lt, ok, >>=-eq-ok, access, Option-cases,
}
use learning_c.Deadlock.Graph.{
  Pair, Vertex, TaskGraph, matches, search_vertex, add_vertex, set_next, add_edge, has_thread,
  verify_edge, unlink, remove_edge,
}
use learning_c.Deadlock.Graph.Valid.{matches_refl, search_vertex-eq-some, search_vertex-cong}
use learning_c.Deadlock.Graph.Spec.{
  targets, registered, targets-eq, targets-add_vertex, targets-set_next, registered-set_next,
}

-- What a call of `add_edge` did that returned.
pub add_edge-eq-ok :
    (g g' : TaskGraph) (u v : Pair)
    → add_edge g u v ≡ ok g'
    → (g₁ g₂ : TaskGraph) × (i : ℕ) × (w : Vertex) × (add_vertex g u ≡ ok g₁)
      × (add_vertex g₁ v ≡ ok g₂)
      × (search_vertex g₂ u ≡ some i)
      × (get_elem? g₂.vertex_list i ≡ some w)
      × (g' ≡ set_next g₂ i w (w.next ++ v ∷ []))
unfolding add_edge
add_edge-eq-ok g g' u v h =
    let (g₁, a, h₁) = >>=-eq-ok (add_vertex g u) _ h in
    let (g₂, b, h₂) = >>=-eq-ok (add_vertex g₁ v) _ h₁ in
    let (i, c, h₃) = >>=-eq-ok (access (search_vertex g₂ u)) _ h₂ in
    let (w, d, e) = >>=-eq-ok (access (get_elem? g₂.vertex_list i)) _ h₃ in
    (g₁, g₂, i, w, a, b, ground arith, ground arith, ground arith)

-- `add_edge` puts `v` at the end of the chain of `u`, leaves every other chain as it was, and
-- registers the two threads and no other.
pub targets-add_edge :
    (g g' : TaskGraph) (u v q : Pair)
    → add_edge g u v ≡ ok g'
    → (targets g' q ≡ (if matches u q then targets g u ++ v ∷ [] else targets g q))
      × (registered g' q ≡ (matches u q || matches v q || registered g q))
targets-add_edge g g' u v q h =
    let (g₁, g₂, i, w, a, b, found, at, last) = add_edge-eq-ok g g' u v h in
    let (chain_u, _) = targets-add_vertex g g₁ u u a in
    let (chain_u', _) = targets-add_vertex g₁ g₂ v u b in
    let (chain_q, reg_q) = targets-add_vertex g g₁ u q a in
    let (chain_q', reg_q') = targets-add_vertex g₁ g₂ v q b in
    let stored = targets-eq g₂ u i w found at in
    let seen = targets-set_next g₂ u q i w (w.next ++ v ∷ []) found at in
    let kept = registered-set_next g₂ i w (w.next ++ v ∷ []) q at in ground arith

pub remove_edge-eq-ok :
    (g g' : TaskGraph) (u v : Pair)
    → remove_edge g u v ≡ ok g'
    → (g' ≡ g) × ((search_vertex g u ≡ none) ⊎ (registered g v ≡ false)) ⊎ (record {
      found :
          (i : ℕ) × (search_vertex g u ≡ some i)
          × (w : Vertex) × (get_elem? g.vertex_list i ≡ some w)
          × (g' ≡ set_next g i w (unlink v.th_id w.next));
      known : registered g v ≡ true;
    })
unfolding remove_edge registered
remove_edge-eq-ok g g' u v h = elim (Option-cases (search_vertex g u)) [
  | inl missing ↦ inl (ground arith, inl missing)
  | inr (i, found) ↦ elim (Option-cases (search_vertex g v)) [
    | inl missing ↦ inl (ground arith, inr (ground arith))
    | inr (j, there) ↦ elim (Option-cases (get_elem? g.vertex_list i)) [
      | inl e ↦ absurd (ground arith)
      | inr (w, at) ↦ inr (record { found = (i, found, w, at, ground arith); known = ground arith })
    ]
  ]
]

targets-unregistered :
    (g : TaskGraph) (u q : Pair) → search_vertex g u ≡ none → matches u q ≡ true → targets g q ≡ []
unfolding targets
targets-unregistered g u q h e = ground (arith, search_vertex-cong g u q)

-- `remove_edge` takes the first node with the thread of `v` out of the chain of `u` if both threads
-- are registered, and changes nothing else.
pub targets-remove_edge :
    (g g' : TaskGraph) (u v q : Pair)
    → remove_edge g u v ≡ ok g'
    → (targets g' q
        ≡ (if matches u q && registered g v then unlink v.th_id (targets g u) else targets g q))
      × (registered g' q ≡ registered g q)
targets-remove_edge g g' u v q h = elim (remove_edge-eq-ok g g' u v h) [
  | inl (same, inl missing) ↦ ground (
    arith,
    targets-unregistered g u q missing,
    targets-unregistered g u u missing,
    matches_refl u,
  )
  | inl (same, inr unknown) ↦ ground arith
  | inr r ↦
      let (i, found, w, at, new) = r.found in
      let stored = targets-eq g u i w found at in
      let seen = targets-set_next g u q i w (unlink v.th_id w.next) found at in
      let kept = registered-set_next g i w (unlink v.th_id w.next) q at in
      let known = r.known in ground arith
]

-- `verify_edge` never reads out of bounds. It says whether `u` is registered and `v` has the thread
-- of `u` itself or one that stands in the chain of `u`; the type of `v` is not looked at.
pub verify_edge_lem :
    (g : TaskGraph) (u v : Pair)
    → verify_edge g u v
      ≡ ok (registered g u && (u.th_id == v.th_id || has_thread v.th_id (targets g u)))
unfolding verify_edge registered
verify_edge_lem g u v = elim (Option-cases (search_vertex g u)) [
  | inl missing ↦ ground arith
  | inr (i, found) ↦
      let (w, at, good) = search_vertex-eq-some g u i found in
      ground (arith, targets-eq g u i w found at, get_elem?-lt g.vertex_list i at)
]
