-- ===== src/Deadlock/Locks/Parts.antt =====
-- deadlock/deadlock.cpp: what `lock_before` and `lock_after` consist of, and what each part leaves alone.
use learning_c.Common.{
  ℕ, ◌≡◌, ap, refl, inl, inr, some, arith, get_elem?, ok, >>=-eq-ok, access, increment, decrement,
}
use learning_c.Deadlock.Graph.{Pair, TaskGraph, search_vertex, add_vertex, add_edge, remove_edge}
use learning_c.Deadlock.Graph.Valid.{IsValid}
use learning_c.Deadlock.Graph.Spec.{targets, registered, add_vertex-eq-ok}
use learning_c.Deadlock.Graph.Edges.{add_edge-eq-ok, remove_edge-eq-ok}
use learning_c.Deadlock.Locks.{
  link_edge, unlink_edge, register_wait, take_over, set_lock, thread_pair,
}

pub lock_list-add_vertex :
    (g g' : TaskGraph) (p : Pair) → add_vertex g p ≡ ok g' → g'.lock_list ≡ g.lock_list
lock_list-add_vertex g g' p h = ground (arith, add_vertex-eq-ok g g' p h)

pub lock_list-add_edge :
    (g g' : TaskGraph) (u v : Pair) → add_edge g u v ≡ ok g' → g'.lock_list ≡ g.lock_list
lock_list-add_edge g g' u v h =
    let (g₁, g₂, i, w, a, b, found, at, last) = add_edge-eq-ok g g' u v h in
    ground (arith, lock_list-add_vertex g g₁ u a, lock_list-add_vertex g₁ g₂ v b)

pub lock_list-remove_edge :
    (g g' : TaskGraph) (u v : Pair) → remove_edge g u v ≡ ok g' → g'.lock_list ≡ g.lock_list
lock_list-remove_edge g g' u v h = elim (remove_edge-eq-ok g g' u v h) [
  | inl (same, _) ↦ ap (λ r. r.lock_list) same
  | inr r ↦ let (i, found, w, at, new) = r.found in ap (λ x. x.lock_list) new
]

-- The table is no part of the graph proper.
pub targets-set_lock :
    (g : TaskGraph) (i : ℕ) (p q : Pair) → targets (set_lock g i p) q ≡ targets g q
unfolding targets search_vertex
targets-set_lock g i p q = refl

pub registered-set_lock :
    (g : TaskGraph) (i : ℕ) (p q : Pair) → registered (set_lock g i p) q ≡ registered g q
unfolding registered search_vertex
registered-set_lock g i p q = refl

pub set_lock-IsValid : (g : TaskGraph) (i : ℕ) (p : Pair) → IsValid g → IsValid (set_lock g i p)
unfolding search_vertex
set_lock-IsValid g i p v = record { distinct = v.distinct; closed = v.closed; small = v.small }

-- What a call of `register_wait` did that returned.
pub register_wait-eq-ok :
    (junk : Pair) (g g' : TaskGraph) (t idx : ℕ)
    → register_wait junk g t idx ≡ ok g'
    → (g₁ : TaskGraph) × (entry : Pair) × (g₂ : TaskGraph) × (add_vertex g (thread_pair junk t)
        ≡ ok g₁)
      × (get_elem? g.lock_list idx ≡ some entry)
      × (add_vertex
            (set_lock g₁ idx (record entry { degress = increment entry.degress }))
            (thread_pair junk entry.th_id)
          ≡ ok g₂)
      × (link_edge g₂ (thread_pair junk t) (thread_pair junk entry.th_id) ≡ ok g')
unfolding register_wait
register_wait-eq-ok junk g g' t idx h =
    let (g₁, a, h₁) = >>=-eq-ok (add_vertex g (thread_pair junk t)) _ h in
    let (entry, c, h₂) = >>=-eq-ok (access (get_elem? g₁.lock_list idx)) _ h₁ in
    let (g₂, b, last) =
      >>=-eq-ok
        (add_vertex (set_lock g₁ idx (record entry { degress = increment entry.degress }))
          (thread_pair junk entry.th_id))
        _ h₂ in
    let locks = lock_list-add_vertex g g₁ (thread_pair junk t) a in
    (g₁, entry, g₂, a, ground arith, b, last)

pub take_over-eq-ok :
    (junk : Pair) (g g' : TaskGraph) (t idx : ℕ)
    → take_over junk g t idx ≡ ok g'
    → (entry : Pair) × (g₁ : TaskGraph) × (lowered : Pair) × (get_elem? g.lock_list idx
        ≡ some entry)
      × (unlink_edge
            (set_lock g idx (record entry { degress = decrement entry.degress }))
            (thread_pair junk t)
            (thread_pair junk entry.th_id)
          ≡ ok g₁)
      × (get_elem? g₁.lock_list idx ≡ some lowered)
      × (g' ≡ set_lock g₁ idx (record lowered { th_id = t }))
unfolding take_over
take_over-eq-ok junk g g' t idx h =
    let (entry, a, h₁) = >>=-eq-ok (access (get_elem? g.lock_list idx)) _ h in
    let (g₁, b, h₂) =
      >>=-eq-ok
        (unlink_edge (set_lock g idx (record entry { degress = decrement entry.degress }))
          (thread_pair junk t) (thread_pair junk entry.th_id))
        _ h₁ in
    let (lowered, c, last) = >>=-eq-ok (access (get_elem? g₁.lock_list idx)) _ h₂ in
    (entry, g₁, lowered, ground arith, b, ground arith, ground arith)
