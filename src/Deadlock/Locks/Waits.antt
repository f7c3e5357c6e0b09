-- ===== src/Deadlock/Locks/Waits.antt =====
-- deadlock/deadlock.cpp: `lock_before` and `lock_after` in terms of the chains and the table.
use learning_c.Common.{
  set-set, ℕ, ◌≡◌, ◌∙◌, ap, sym, subst, Bool, true, not, ◌&&◌, ◌||◌, some, [], ◌∷◌, ◌++◌, ◌==◌,
  arith, if◌then◌else◌, set, get_elem?, get_elem?-lt, get_elem?-set, ok, increment, decrement,
}
use mathlib.Core.Path.{ap₂}
use learning_c.Deadlock.Graph.{Pair, TaskGraph, matches, has_thread, unlink}
use learning_c.Deadlock.Graph.Valid.{matches_refl}
use learning_c.Deadlock.Graph.Spec.{targets, registered, targets-add_vertex}
use learning_c.Deadlock.Graph.Edges.{targets-add_edge, targets-remove_edge, verify_edge_lem}
use learning_c.Deadlock.Locks.{
  link_edge, unlink_edge, search_lock, set_lock, thread_pair, lock_before, lock_after,
}
use learning_c.Deadlock.Locks.Parts.{
  lock_list-add_vertex, lock_list-add_edge, lock_list-remove_edge, targets-set_lock,
  registered-set_lock, register_wait-eq-ok, take_over-eq-ok,
}

-- whether `verify_edge` finds `v` at `u`
abbrev pub linked : TaskGraph → Pair → Pair → Bool
linked g u v = u.th_id == v.th_id || has_thread v.th_id (targets g u)

pub lock_list-link_edge :
    (g g' : TaskGraph) (u v : Pair) → link_edge g u v ≡ ok g' → g'.lock_list ≡ g.lock_list
unfolding link_edge
lock_list-link_edge g g' u v h = ground (arith, verify_edge_lem g u v, lock_list-add_edge g g' u v)

pub lock_list-unlink_edge :
    (g g' : TaskGraph) (u v : Pair) → unlink_edge g u v ≡ ok g' → g'.lock_list ≡ g.lock_list
unfolding unlink_edge
lock_list-unlink_edge g g' u v h =
    ground (arith, verify_edge_lem g u v, lock_list-remove_edge g g' u v)

module _ (g g' : TaskGraph) (u v q : Pair) where
  targets-link_edge :
      registered g u ≡ true
      → link_edge g u v ≡ ok g'
      → (targets g' q
          ≡ (if matches u q && not (linked g u v) then targets g u ++ v ∷ [] else targets g q))
        × (g'.lock_list ≡ g.lock_list)
  unfolding link_edge
  targets-link_edge known h =
      ground
        (arith, verify_edge_lem g u v, targets-add_edge g g' u v q, lock_list-add_edge g g' u v)

  registered-link_edge : registered g q ≡ true → link_edge g u v ≡ ok g' → registered g' q ≡ true
  unfolding link_edge
  registered-link_edge known h = ground (arith, verify_edge_lem g u v, targets-add_edge g g' u v q)

  targets-unlink_edge :
      unlink_edge g u v ≡ ok g'
      → (targets g' q ≡ (
          if matches u q && registered g u && registered g v && linked g u v
          then unlink v.th_id (targets g u)
          else targets g q))
        × (g'.lock_list ≡ g.lock_list)
  unfolding unlink_edge
  targets-unlink_edge h =
      ground (
        arith,
        verify_edge_lem g u v,
        targets-remove_edge g g' u v q,
        lock_list-remove_edge g g' u v,
      )

module _ (junk : Pair) (g g' : TaskGraph) (t lock idx : ℕ) (entry q : Pair)
    (found : search_lock g lock ≡ some idx) (at : get_elem? g.lock_list idx ≡ some entry) where
  -- Before it waits for a lock with a registered owner, a thread gets an edge to the owner unless
  -- it has one or is the owner; no other chain changes. The lock counts one waiter more.
  pub lock_before-waits :
      lock_before junk g t lock ≡ ok g'
      → (targets g' q ≡ (
          if matches (thread_pair junk t) q
            && not (linked g (thread_pair junk t) (thread_pair junk entry.th_id))
          then targets g (thread_pair junk t) ++ thread_pair junk entry.th_id ∷ []
          else targets g q))
        × (g'.lock_list ≡ set g.lock_list idx (record entry { degress = increment entry.degress }))
  unfolding lock_before
  lock_before-waits h =
      let u = thread_pair junk t in
      let (g₁, entry', g₂, a, at', b, last) = register_wait-eq-ok junk g g' t idx (ground arith) in
      let v = thread_pair junk entry'.th_id in
      let mid = set_lock g₁ idx (record entry' { degress = increment entry'.degress }) in
      let raised = record entry' { degress = increment entry'.degress } in
      let (chain, _) = targets-add_vertex g g₁ u q a in
      let (chain_u, known) = targets-add_vertex g g₁ u u a in
      let (chain', _) = targets-add_vertex mid g₂ v q b in
      let (chain_u', known') = targets-add_vertex mid g₂ v u b in
      let still : registered g₂ u ≡ true =
        ground (arith, registered-set_lock g₁ idx raised u, matches_refl u) in
      let same_q : targets g₂ q ≡ targets g q = chain' ∙ targets-set_lock g₁ idx raised q ∙ chain in
      let same_u : targets g₂ u ≡ targets g u =
        chain_u' ∙ targets-set_lock g₁ idx raised u ∙ chain_u in
      let (end, table) = targets-link_edge g₂ g' u v q still last in
      let table₂ = lock_list-add_vertex mid g₂ v b in
      let table₁ = lock_list-add_vertex g g₁ u a in
      let one_entry : entry' ≡ entry = ground arith in
      let result : (targets g' q
            ≡ (if matches u q && not (linked g u v) then targets g u ++ v ∷ [] else targets g q))
          × (g'.lock_list ≡ set g.lock_list idx raised) =
        (rw (same_q, same_u) at end, table ∙ table₂ ∙ ap (λ l. set l idx raised) table₁) in
      subst
        (λ e.
          (targets g' q ≡ (
            if matches u q && not (linked g u (thread_pair junk e.th_id))
            then targets g u ++ thread_pair junk e.th_id ∷ []
            else targets g q))
          × (g'.lock_list ≡ set g.lock_list idx (record e { degress = increment e.degress })))
        one_entry result

  -- Both threads are registered then.
  pub lock_before-registers :
      lock_before junk g t lock ≡ ok g'
      → (registered g' (thread_pair junk t) ≡ true)
        × (registered g' (thread_pair junk entry.th_id) ≡ true)
  unfolding lock_before
  lock_before-registers h =
      let u = thread_pair junk t in
      let (g₁, entry', g₂, a, at', b, last) = register_wait-eq-ok junk g g' t idx (ground arith) in
      let v = thread_pair junk entry'.th_id in
      let raised = record entry' { degress = increment entry'.degress } in
      let (_, known) = targets-add_vertex g g₁ u u a in
      let (_, known_u) = targets-add_vertex (set_lock g₁ idx raised) g₂ v u b in
      let (_, known_v) = targets-add_vertex (set_lock g₁ idx raised) g₂ v v b in
      let one_entry : entry' ≡ entry = ground arith in
      (
        registered-link_edge g₂ g' u v u
            (ground (arith, registered-set_lock g₁ idx raised u, matches_refl u)) last,
        subst (λ e. registered g' (thread_pair junk e.th_id) ≡ true) one_entry
            (registered-link_edge g₂ g' u v v (ground (arith, matches_refl v)) last),
      )

  -- When the thread has got a lock with a registered owner, the edge to that owner is taken away if
  -- there is one, no other chain changes, and the thread is the owner, with one waiter less.
  pub lock_after-takes_over :
      lock_after junk g t lock ≡ ok g'
      → (targets g' q ≡ (
          if matches (thread_pair junk t) q
            && registered g (thread_pair junk t)
            && registered g (thread_pair junk entry.th_id)
            && linked g (thread_pair junk t) (thread_pair junk entry.th_id)
          then unlink entry.th_id (targets g (thread_pair junk t))
          else targets g q))
        × (g'.lock_list
            ≡ set g.lock_list idx (record entry { th_id = t; degress = decrement entry.degress }))
  unfolding lock_after
  lock_after-takes_over h =
      let (entry', g₁, lowered, at', b, c, last) = take_over-eq-ok junk g g' t idx (ground arith) in
      let one_entry : entry ≡ entry' = ground arith in
      let less = record entry { degress = decrement entry.degress } in
      let b' : unlink_edge (set_lock g idx less) (thread_pair junk t) (thread_pair junk entry.th_id)
          ≡ ok g₁ =
        subst
          (λ e.
            unlink_edge (set_lock g idx (record e { degress = decrement e.degress }))
              (thread_pair junk t) (thread_pair junk e.th_id)
            ≡ ok g₁)
          (sym one_entry) b in
      let (chain, table) =
        targets-unlink_edge (set_lock g idx less) g₁ (thread_pair junk t)
          (thread_pair junk entry.th_id) q b' in
      let low : lowered ≡ less =
        ground (arith, get_elem?-set g.lock_list idx idx less (get_elem?-lt g.lock_list idx at)) in
      let owned = record less { th_id = t } in
      (
        ap (λ r. targets r q) last
            ∙ targets-set_lock g₁ idx (record lowered { th_id = t }) q
            ∙ (simp (targets-set_lock, registered-set_lock) at chain),
        ap (λ r. r.lock_list) last
            ∙ ap₂ {B = Pair} (λ l e. set l idx (record e { th_id = t })) table low
            ∙ set-set g.lock_list idx less owned,
      )
