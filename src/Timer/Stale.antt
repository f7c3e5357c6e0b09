-- ===== src/Timer/Stale.antt =====
-- boost/timer.cpp: the reference `nextEvent`, read after the mutex is released.
use learning_c.Common.{
  ℕ, zero, suc, ◌≡◌, refl, ap, ◌∙◌, false, Option, none, some, List, [], ◌∷◌, arith, get_elem?,
  get_elem?-set_here, set, ok, fault, ltbℤ, ◌+ℤ◌, pos,
}
use learning_c.PriorityQueue.{PriorityQueue}
use learning_c.Timer.{
  TimeEvent, Worker, checking, computing, is_blocking, any, Pool, turn, enqueue, with_worker,
  compute, work, step, run,
}

any-set :
    {C : Type 0} (ws : List (Worker C)) (i : ℕ) (w : Worker C)
    → any is_blocking ws ≡ false
    → is_blocking w ≡ false
    → any is_blocking (set ws i w) ≡ false
any-set [] i w h k = h
any-set (x ∷ ws) zero w h k = ground (arith, h, k)
any-set (x ∷ ws) (suc i) w h k =
    let tail : any is_blocking ws ≡ false = ground (arith, h) in
    ground (arith, h, any-set ws i w tail k)

module _ {C Q : Type 0} (H : PriorityQueue (TimeEvent C) Q) where
  compute-stale :
      (q : Pool C Q) (i now changes : ℕ) (top : Option (TimeEvent C))
      → q.changes ≡ suc changes
      → compute H q i now changes top ≡ fault
  compute-stale q i now changes none more = refl
  compute-stale q i now changes (some a) more = ground (arith, more)

  -- While no thread holds the mutex, let worker `i` test the queue, whose first job is not due, and let
  -- a job then be added, which takes effect at once, since the worker has released the mutex. Then the
  -- worker computes how long to sleep from a reference into the queue as it was before.
  pub stale_read :
      (p : Pool C Q) (i : ℕ) (a e : TimeEvent C)
      → get_elem? p.workers i ≡ some checking
      → any is_blocking p.workers ≡ false
      → H.top p.time_q ≡ some a
      → ltbℤ (a.time +ℤ p.time_adjustment) (pos p.clock) ≡ false
      → (q : Pool C Q) × (run H p (turn i ∷ enqueue e ∷ []) ≡ ok q)
        × (q.enqueued ≡ e ∷ p.enqueued)
        × (step H q (turn i) ≡ fault)
  unfolding step run
  stale_read p i a e here free top early =
      let m : Pool C Q = with_worker H p i (computing p.clock p.changes) in
      let still_free : any is_blocking m.workers ≡ false =
        any-set p.workers i (computing p.clock p.changes) free refl in
      let at_i : get_elem? m.workers i ≡ some (computing p.clock p.changes) =
        get_elem?-set_here p.workers i (computing p.clock p.changes) here in
      let q : Pool C Q = record m {
        time_q = H.push e m.time_q;
        changes = suc m.changes;
        notify_one_owed = suc m.notify_one_owed;
        enqueued = e ∷ m.enqueued;
      } in
      (
        q,
        ground (arith, here, free, top, early, still_free),
        refl,
        ap (work H q i) at_i ∙ compute-stale q i p.clock p.changes (H.top q.time_q) refl,
      )
