-- ===== src/Deadlock/Locks/Stale.antt =====
-- deadlock/deadlock.cpp: two threads that wait for one lock.
use learning_c.Common.{
  ℕ, ◌≡◌, ◌≢◌, ◌∙◌, refl, false, some, [], ◌∷◌, ◌++◌, arith, get_elem?, get_elem?-lt, get_elem?-set,
  ok, increment, decrement,
}
use learning_c.Deadlock.Graph.{Pair, TaskGraph, matches, has_thread}
use learning_c.Deadlock.Graph.Spec.{targets}
use learning_c.Deadlock.Graph.Valid.{matches_refl}
use learning_c.Deadlock.Locks.{search_lock, thread_pair, lock_before, lock_after}
use learning_c.Deadlock.Locks.Waits.{linked, lock_before-waits, lock_after-takes_over}
use learning_c.Deadlock.Locks.Rounds.{search_lock-set, has_thread-append}

-- Two threads wait for one lock; the first gets it, and then the second. The edge of the second to
-- the owner from before stays, though its wait is over: it was told of no other owner.
pub stale_edge :
    (junk : Pair) (g g₁ g₂ g₃ g₄ : TaskGraph) (first second lock idx : ℕ) (entry : Pair)
    → search_lock g lock ≡ some idx
    → get_elem? g.lock_list idx ≡ some entry
    → first ≢ second
    → first ≢ entry.th_id
    → linked g (thread_pair junk second) (thread_pair junk entry.th_id) ≡ false
    → has_thread first (targets g (thread_pair junk second)) ≡ false
    → lock_before junk g first lock ≡ ok g₁
    → lock_before junk g₁ second lock ≡ ok g₂
    → lock_after junk g₂ first lock ≡ ok g₃
    → lock_after junk g₃ second lock ≡ ok g₄
    → (targets g₄ (thread_pair junk second)
        ≡ targets g (thread_pair junk second) ++ thread_pair junk entry.th_id ∷ [])
      × ((e : Pair) × (get_elem? g₄.lock_list idx ≡ some e) × (e.th_id ≡ second))
stale_edge junk g g₁ g₂ g₃ g₄ first second lock idx entry found at apart other fresh unlinked
      before₁ before₂ after₁ after₂ =
    let u = thread_pair junk first in
    let w = thread_pair junk second in
    let v = thread_pair junk entry.th_id in
    let e₁ = record entry { degress = increment entry.degress } in
    let e₂ = record e₁ { degress = increment e₁.degress } in
    let e₃ = record e₂ { th_id = first; degress = decrement e₂.degress } in
    let e₄ = record e₃ { th_id = second; degress = decrement e₃.degress } in
    let lt = get_elem?-lt g.lock_list idx at in
    let (c₁, table₁) = lock_before-waits junk g g₁ first lock idx entry w found at before₁ in
    let f₁ = search_lock-set g g₁ lock idx entry e₁ at refl table₁ ∙ found in
    let at₁ : get_elem? g₁.lock_list idx ≡ some e₁ =
      ground (arith, get_elem?-set g.lock_list idx idx e₁ lt) in
    let lt₁ = get_elem?-lt g₁.lock_list idx at₁ in
    let (c₂, table₂) = lock_before-waits junk g₁ g₂ second lock idx e₁ w f₁ at₁ before₂ in
    let f₂ = search_lock-set g₁ g₂ lock idx e₁ e₂ at₁ refl table₂ ∙ f₁ in
    let at₂ : get_elem? g₂.lock_list idx ≡ some e₂ =
      ground (arith, get_elem?-set g₁.lock_list idx idx e₂ lt₁) in
    let lt₂ = get_elem?-lt g₂.lock_list idx at₂ in
    let (c₃, table₃) = lock_after-takes_over junk g₂ g₃ first lock idx e₂ w f₂ at₂ after₁ in
    let f₃ = search_lock-set g₂ g₃ lock idx e₂ e₃ at₂ refl table₃ ∙ f₂ in
    let at₃ : get_elem? g₃.lock_list idx ≡ some e₃ =
      ground (arith, get_elem?-set g₂.lock_list idx idx e₃ lt₂) in
    let lt₃ = get_elem?-lt g₃.lock_list idx at₃ in
    let (c₄, table₄) = lock_after-takes_over junk g₃ g₄ second lock idx e₃ w f₃ at₃ after₂ in
    let not_second : matches u w ≡ false = ground arith in
    let chain₁ : targets g₁ w ≡ targets g w = rw not_second at c₁ in
    let chain₂ : targets g₂ w ≡ targets g w ++ v ∷ [] = ground (arith, matches_refl w) in
    let chain₃ : targets g₃ w ≡ targets g w ++ v ∷ [] = (rw not_second at c₃) ∙ chain₂ in
    (
      ground (arith, has_thread-append first (targets g w) v),
      (e₄, ground (arith, get_elem?-set g₃.lock_list idx idx e₄ lt₃), refl),
    )
