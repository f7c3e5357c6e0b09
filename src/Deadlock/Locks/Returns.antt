-- ===== src/Deadlock/Locks/Returns.antt =====
-- deadlock/deadlock.cpp: `lock_before` and `lock_after` of a lock that the table knows.
use learning_c.Common.{
  ℕ, ◌+◌, ◌≤◌, ◌≡◌, ◌∙◌, refl, inl, inr, false, some, arith, length, set, get_elem?, get_elem?-lt,
  get_elem?-set, ok, increment, decrement, Bool-cases, Option-cases, ◌&&◌,
}
use learning_c.Deadlock.Graph.{
  Pair, TaskGraph, max_size, search_vertex, remove_edge, set_next, unlink,
}
use learning_c.Deadlock.Graph.Valid.{search_vertex-eq-some}
use learning_c.Deadlock.Graph.Spec.{targets, registered}
use learning_c.Deadlock.Graph.Edges.{verify_edge_lem}
use learning_c.Deadlock.Graph.Keep.{add_vertex_total, add_edge_total}
use learning_c.Deadlock.Locks.{
  search_lock, set_lock, thread_pair, link_edge, unlink_edge, register_wait, take_over, lock_before,
  lock_after,
}
use learning_c.Deadlock.Locks.Waits.{linked, lock_before-waits, lock_list-unlink_edge}
use learning_c.Deadlock.Locks.Rounds.{search_lock-set, wait_round}

link_edge_total :
    (g : TaskGraph) (u v : Pair)
    → length g.vertex_list + 2 ≤ max_size
    → (g' : TaskGraph) × (link_edge g u v ≡ ok g')
unfolding link_edge
link_edge_total g u v room =
    let (g', added, _) = add_edge_total g u v room in
    let is = verify_edge_lem g u v in
    elim (Bool-cases (registered g u && (linked g u v))) [
      | inl there ↦ (g, ground (arith, is, there))
      | inr missing ↦ (g', ground (arith, is, missing, added))
    ]

remove_edge_total : (g : TaskGraph) (u v : Pair) → (g' : TaskGraph) × (remove_edge g u v ≡ ok g')
unfolding remove_edge
remove_edge_total g u v = elim (Option-cases (search_vertex g u)) [
  | inl missing ↦ (g, ground (arith, missing))
  | inr (i, found) ↦ elim (Option-cases (search_vertex g v)) [
    | inl unknown ↦ (g, ground (arith, found, unknown))
    | inr (j, known) ↦
        let (w, at, _) = search_vertex-eq-some g u i found in
        (set_next g i w (unlink v.th_id w.next), ground (arith, found, known, at))
  ]
]

unlink_edge_total : (g : TaskGraph) (u v : Pair) → (g' : TaskGraph) × (unlink_edge g u v ≡ ok g')
unfolding unlink_edge
unlink_edge_total g u v =
    let (g', removed) = remove_edge_total g u v in
    let is = verify_edge_lem g u v in
    elim (Bool-cases (registered g u && (linked g u v))) [
      | inl there ↦ (g', ground (arith, is, there, removed))
      | inr missing ↦ (g, ground (arith, is, missing))
    ]

lock_before_total :
    (junk : Pair) (g : TaskGraph) (t lock idx : ℕ) (entry : Pair)
    → search_lock g lock ≡ some idx
    → get_elem? g.lock_list idx ≡ some entry
    → length g.vertex_list + 4 ≤ max_size
    → (g' : TaskGraph) × (lock_before junk g t lock ≡ ok g')
unfolding lock_before register_wait
lock_before_total junk g t lock idx entry found at room =
    let u = thread_pair junk t in
    let v = thread_pair junk entry.th_id in
    let (g₁, a, size₁, table) = add_vertex_total g u (omega (arith, room)) in
    let raised = set_lock g₁ idx (record entry { degress = increment entry.degress }) in
    let (g₂, b, size₂, _) = add_vertex_total raised v (omega (arith, room, size₁)) in
    let (g', last) = link_edge_total g₂ u v (omega (arith, room, size₁, size₂)) in
    (g', ground (arith, found, a, table, at, b, last))

lock_after_total :
    (junk : Pair) (g : TaskGraph) (t lock idx : ℕ) (entry : Pair)
    → search_lock g lock ≡ some idx
    → get_elem? g.lock_list idx ≡ some entry
    → (g' : TaskGraph) × (lock_after junk g t lock ≡ ok g')
unfolding lock_after take_over
lock_after_total junk g t lock idx entry found at =
    let u = thread_pair junk t in
    let v = thread_pair junk entry.th_id in
    let less = record entry { degress = decrement entry.degress } in
    let (g₁, unlinked) = unlink_edge_total (set_lock g idx less) u v in
    let table = lock_list-unlink_edge (set_lock g idx less) g₁ u v unlinked in
    let lowered : get_elem? g₁.lock_list idx ≡ some less =
      ground
        (arith, table, get_elem?-set g.lock_list idx idx less (get_elem?-lt g.lock_list idx at)) in
    (set_lock g₁ idx (record less { th_id = t }), ground (arith, found, at, unlinked, lowered))

-- A thread waits for a lock that the table knows, gets it, and no other step comes between. Where
-- it is not linked to the owner yet and four more vertices have room, `lock_before` and `lock_after`
-- return, and the wait leaves no trace in the graph: every chain is the one from before it, and the
-- entry of the lock has the new owner and the old number of waiters.
pub wait_round_total :
    (junk : Pair) (g : TaskGraph) (t lock idx : ℕ) (entry : Pair)
    → search_lock g lock ≡ some idx
    → get_elem? g.lock_list idx ≡ some entry
    → linked g (thread_pair junk t) (thread_pair junk entry.th_id) ≡ false
    → length g.vertex_list + 4 ≤ max_size
    → (g₁ : TaskGraph) × (g₂ : TaskGraph) × (lock_before junk g t lock ≡ ok g₁)
      × (lock_after junk g₁ t lock ≡ ok g₂)
      × ((q : Pair) → targets g₂ q ≡ targets g q)
      × (g₂.lock_list ≡ set g.lock_list idx (record entry { th_id = t }))
wait_round_total junk g t lock idx entry found at fresh room =
    let raised = record entry { degress = increment entry.degress } in
    let (g₁, before) = lock_before_total junk g t lock idx entry found at room in
    let (_, table) =
      lock_before-waits junk g g₁ t lock idx entry (thread_pair junk t) found at before in
    let found₁ = search_lock-set g g₁ lock idx entry raised at refl table ∙ found in
    let at₁ : get_elem? g₁.lock_list idx ≡ some raised =
      ground (
        arith,
        table,
        get_elem?-set g.lock_list idx idx raised (get_elem?-lt g.lock_list idx at),
      ) in
    let (g₂, after) = lock_after_total junk g₁ t lock idx raised found₁ at₁ in
    let round =
      λ (q : Pair). wait_round junk g g₁ g₂ t lock idx entry q found at fresh before after in
    (g₁, g₂, before, after, λ q. (round q).0, (round (thread_pair junk t)).1)
