-- ===== src/Deadlock/Locks/Rounds.antt =====
-- deadlock/deadlock.cpp: `lock_before` and right after it `lock_after` of one thread.
use mathlib.Core.Path.{ap₂}
use learning_c.Common.{
  set-set, ℕ, zero, suc, ◌≡◌, ◌∙◌, refl, false, ◌||◌, some, List, [], ◌∷◌, ◌++◌, ◌==◌, arith, set,
  get_elem?, get_elem?-lt, get_elem?-set, ok, ℤ, increment, decrement-increment,
}
use learning_c.Deadlock.Graph.{Pair, TaskGraph, has_thread, unlink}
use learning_c.Deadlock.Graph.Valid.{matches_refl}
use learning_c.Deadlock.Graph.Spec.{targets, targets-cong}
use learning_c.Deadlock.Locks.{search_lock_from, search_lock, thread_pair, lock_before, lock_after}
use learning_c.Deadlock.Locks.Waits.{
  linked, lock_before-waits, lock_before-registers, lock_after-takes_over,
}

search_lock_from-set :
    (lock : ℕ) (ps : List Pair) (i : ℕ) (p r : Pair) (k : ℕ)
    → get_elem? ps i ≡ some p
    → r.lock_id ≡ p.lock_id
    → search_lock_from lock (set ps i r) k ≡ search_lock_from lock ps k
search_lock_from-set lock [] i p r k at same = refl
search_lock_from-set lock (x ∷ ps) zero p r k at same = ground arith
search_lock_from-set lock (x ∷ ps) (suc i) p r k at same =
    rw (search_lock_from-set lock ps i p r (suc k) at same)

-- The index of a lock stays its index while its entry is rewritten.
pub search_lock-set :
    (g g' : TaskGraph) (lock i : ℕ) (p r : Pair)
    → get_elem? g.lock_list i ≡ some p
    → r.lock_id ≡ p.lock_id
    → g'.lock_list ≡ set g.lock_list i r
    → search_lock g' lock ≡ search_lock g lock
unfolding search_lock
search_lock-set g g' lock i p r at same table =
    rw table (search_lock_from-set lock g.lock_list i p r 0 at same)

pub has_thread-append :
    (t : ℕ) (ps : List Pair) (p : Pair)
    → has_thread t (ps ++ p ∷ []) ≡ (has_thread t ps || p.th_id == t)
has_thread-append t [] p = ground arith
has_thread-append t (x ∷ ps) p = ground (arith, has_thread-append t ps p)

unlink-append :
    (t : ℕ) (ps : List Pair) (p : Pair)
    → has_thread t ps ≡ false
    → p.th_id ≡ t
    → unlink t (ps ++ p ∷ []) ≡ ps
unlink-append t [] p h e = ground arith
unlink-append t (x ∷ ps) p h e = ground (arith, unlink-append t ps p)

-- A wait that nothing else interrupts leaves no trace in the graph: the chains are those from before
-- it, and the entry of the lock has the new owner and the old number of waiters.
pub wait_round :
    (junk : Pair) (g g₁ g₂ : TaskGraph) (t lock idx : ℕ) (entry q : Pair)
    → search_lock g lock ≡ some idx
    → get_elem? g.lock_list idx ≡ some entry
    → linked g (thread_pair junk t) (thread_pair junk entry.th_id) ≡ false
    → lock_before junk g t lock ≡ ok g₁
    → lock_after junk g₁ t lock ≡ ok g₂
    → (targets g₂ q ≡ targets g q)
      × (g₂.lock_list ≡ set g.lock_list idx (record entry { th_id = t }))
wait_round junk g g₁ g₂ t lock idx entry q found at fresh before after =
    let u = thread_pair junk t in
    let v = thread_pair junk entry.th_id in
    let raised = record entry { degress = increment entry.degress } in
    let (chain_q, table) = lock_before-waits junk g g₁ t lock idx entry q found at before in
    let (chain_u, _) = lock_before-waits junk g g₁ t lock idx entry u found at before in
    let (known_u, known_v) = lock_before-registers junk g g₁ t lock idx entry u found at before in
    let found₁ = search_lock-set g g₁ lock idx entry raised at refl table ∙ found in
    let at₁ : get_elem? g₁.lock_list idx ≡ some raised =
      ground (arith, get_elem?-set g.lock_list idx idx raised (get_elem?-lt g.lock_list idx at)) in
    let (end, table₂) = lock_after-takes_over junk g₁ g₂ t lock idx raised q found₁ at₁ after in
    (
      ground (
        arith,
        has_thread-append entry.th_id (targets g u) v,
        unlink-append entry.th_id (targets g u) v,
        matches_refl u,
        targets-cong g u q,
      ),
      table₂
          ∙ ap₂ {B = ℤ} (λ l n. set l idx (record entry { th_id = t; degress = n })) table
              (decrement-increment entry.degress)
          ∙ set-set g.lock_list idx raised (record entry { th_id = t }),
    )
