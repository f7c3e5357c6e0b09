-- ===== src/Timer/Shutdown.antt =====
-- boost/timer.cpp: a worker that is about to wait when the destructor stops the pool, and one that
-- is about to read a reference into the queue when the queue changes.
use learning_c.Common.{
  ℕ, zero, suc, ◌≡◌, refl, ap, sym, subst, Bool, true, false, Option, none, some, List, [], ◌∷◌,
  ◌++◌, All, ◌∙◌, map, arith, ◌==◌, ==_iff, leb, if◌then◌else◌, Bool-cases, inl, inr, get_elem?,
  get_elem?-set_other, get_elem?-set_here, set, ok, ◌>>=◌, >>=-eq-ok, pos, ◌+ℤ◌, ltbℤ,
}
use learning_c.PriorityQueue.{PriorityQueue}
use learning_c.Timer.{
  TimeEvent, Worker, checking, blocking, waiting, exited, computing, sleeping, running, Pool, Event,
  turn, spurious_wakeup, notify_one, notify_all, set_stop, tick, enqueue, adjust_timing,
  is_blocking, is_waiting, any, with_worker, take_or_sleep, test_queue, work, wake, step, run,
  woken,
}
use learning_c.Timer.Workers.{compute-ok}

get_elem?-map-woken :
    {C : Type 0} (ws : List (Worker C)) (i : ℕ) (w : Worker C)
    → is_waiting w ≡ false
    → get_elem? ws i ≡ some w
    → get_elem? (map woken ws) i ≡ some w
get_elem?-map-woken [] i w n h = absurd (ground arith)
get_elem?-map-woken (x ∷ xs) zero w n h =
    let same : x ≡ w = ground arith in
    let kept : woken w ≡ w = ground arith in ap some (ap woken same ∙ kept)
get_elem?-map-woken (x ∷ xs) (suc i) w n h = get_elem?-map-woken xs i w n h

module _ {C Q : Type 0} (H : PriorityQueue (TimeEvent C) Q) (i : ℕ) where
  -- The pool is stopped, worker `i` waits and no notification is on its way.
  abbrev Stuck : Pool C Q → Type 0
  Stuck p =
      (get_elem? p.workers i ≡ some waiting)
      × (p.notify_one_owed ≡ 0)
      × (p.notify_all_owed ≡ 0)
      × (p.stop ≡ true)

  -- what may still happen once the destructor is waiting in `join`: no `enqueue`, no second
  -- destructor, and no wake-up without a notification of this worker
  abbrev pub IsLate : Event C → Type 0
  IsLate (turn j) = Unit
  IsLate (spurious_wakeup j) = (j == i) ≡ false
  IsLate (notify_one j) = Unit
  IsLate notify_all = Unit
  IsLate set_stop = ⊥
  IsLate tick = Unit
  IsLate (enqueue e) = ⊥
  IsLate (adjust_timing adjustment) = Unit

  other_worker :
      (p : Pool C Q) (j : ℕ) (w : Worker C)
      → (j == i) ≡ false
      → Stuck p
      → Stuck (with_worker H p j w)
  other_worker p j w n (s, a, b, c) = (get_elem?-set_other p.workers j i w n ∙ s, a, b, c)

  if_Stuck : (p q : Pool C Q) (c : Bool) → Stuck p → Stuck q → Stuck (if c then p else q)
  if_Stuck p q true h k = h
  if_Stuck p q false h k = k

  test_queue-Stuck :
      (p : Pool C Q) (j : ℕ) (o : Option (TimeEvent C)) (b : Bool)
      → (j == i) ≡ false
      → Stuck p
      → Stuck (test_queue H p j o b)
  test_queue-Stuck p j none false n k = other_worker p j blocking n k
  test_queue-Stuck p j none true n k = other_worker p j exited n k
  test_queue-Stuck p j (some e) b n k =
      elim (Bool-cases (ltbℤ (e.time +ℤ p.time_adjustment) (pos p.clock))) [
        | inl y ↦
            subst (λ due. Stuck (take_or_sleep H p j e due)) (sym y)
              (other_worker p j (running e) n k)
        | inr m ↦
            subst (λ due. Stuck (take_or_sleep H p j e due)) (sym m)
              (other_worker p j (computing p.clock p.changes) n k)
      ]

  work-Stuck :
      (p q : Pool C Q) (j : ℕ) (o : Option (Worker C))
      → (j == i) ≡ false
      → work H p j o ≡ ok q
      → Stuck p
      → Stuck q
  work-Stuck p q j none n h k = let e : p ≡ q = ground arith in subst Stuck e k
  work-Stuck p q j (some checking) n h k =
      let e : (if any is_blocking p.workers then p else test_queue H p j (H.top p.time_q) p.stop)
          ≡ q =
        ground arith in
      subst Stuck e (
        if_Stuck p (test_queue H p j (H.top p.time_q) p.stop) (any is_blocking p.workers) k
          (test_queue-Stuck p j (H.top p.time_q) p.stop n k))
  work-Stuck p q j (some blocking) n h k =
      let e : with_worker H p j waiting ≡ q = ground arith in
      subst Stuck e (other_worker p j waiting n k)
  work-Stuck p q j (some waiting) n h k = let e : p ≡ q = ground arith in subst Stuck e k
  work-Stuck p q j (some exited) n h k = let e : p ≡ q = ground arith in subst Stuck e k
  work-Stuck p q j (some (computing now changes)) n h k =
      let (until, e) = compute-ok H p q j now changes (H.top p.time_q) h in
      subst Stuck e (other_worker p j (sleeping until) n k)
  work-Stuck p q j (some (sleeping until)) n h k =
      let e : (if leb until p.clock then with_worker H p j checking else p) ≡ q = ground arith in
      subst Stuck e (
        if_Stuck (with_worker H p j checking) p (leb until p.clock) (other_worker p j checking n k)
          k)
  work-Stuck p q j (some (running a)) n h k =
      let e : with_worker H p j checking ≡ q = ground arith in
      subst Stuck e (other_worker p j checking n k)

  wake-Stuck :
      (p : Pool C Q) (j : ℕ) (o : Option (Worker C))
      → (j == i) ≡ false
      → Stuck p
      → Stuck (wake H p j o)
  wake-Stuck p j none n k = k
  wake-Stuck p j (some w) n k = other_worker p j (woken w) n k

  step-Stuck : (p q : Pool C Q) (e : Event C) → IsLate e → step H p e ≡ ok q → Stuck p → Stuck q
  unfolding step
  step-Stuck p q (turn j) l h k = elim (Bool-cases (j == i)) [
    | inl y ↦
        let here : get_elem? p.workers j ≡ some waiting =
          ap (get_elem? p.workers) ((==_iff j i).0 y) ∙ k.0 in
        let same : p ≡ q = ground (arith, here) in subst Stuck same k
    | inr n ↦ work-Stuck p q j (get_elem? p.workers j) n h k
  ]
  step-Stuck p q (spurious_wakeup j) l h k =
      let same : wake H p j (get_elem? p.workers j) ≡ q = ground arith in
      subst Stuck same (wake-Stuck p j (get_elem? p.workers j) l k)
  step-Stuck p q (notify_one j) l h k = let same : p ≡ q = ground arith in subst Stuck same k
  step-Stuck p q notify_all l h k = let same : p ≡ q = ground arith in subst Stuck same k
  step-Stuck p q set_stop l h k = absurd l
  step-Stuck p q tick l h k =
      let same : record p { clock = suc p.clock } ≡ q = ground arith in subst Stuck same k
  step-Stuck p q (enqueue e) l h k = absurd l
  step-Stuck p q (adjust_timing adjustment) l h k =
      let same : record p { time_adjustment = adjustment } ≡ q = ground arith in subst Stuck same k

  run-Stuck :
      (es : List (Event C)) (p q : Pool C Q) → All IsLate es → run H p es ≡ ok q → Stuck p → Stuck q
  unfolding run
  run-Stuck [] p q l h k = let same : p ≡ q = ground arith in subst Stuck same k
  run-Stuck (e ∷ es) p q l h k =
      let (r, s, rest) = >>=-eq-ok (step H p e) (λ r. run H r es) h in
      run-Stuck es r q l.1 rest (step-Stuck p r e l.0 s k)

  -- The destructor's writes, when worker `i` has tested the predicate and not yet released the mutex.
  abbrev pub destructor_overtakes : List (Event C)
  destructor_overtakes = set_stop ∷ notify_all ∷ turn i ∷ []

  abbrev stopping : Pool C Q → Pool C Q
  stopping p = record p { stop = true; workers = map woken p.workers }

  destroyed :
      (p : Pool C Q) (es : List (Event C))
      → get_elem? (map woken p.workers) i ≡ some blocking
      → run H p (destructor_overtakes ++ es) ≡ run H (with_worker H (stopping p) i waiting) es
  unfolding run step
  destroyed p es still = ap (λ o. work H (stopping p) i o >>= λ r. run H r es) still

  -- When no notification is owed and worker `i` is between the test of `wait`'s predicate and the
  -- release of the mutex, the destructor's write of `stop` and its `notify_all` can both happen
  -- before the worker waits. Along every schedule that goes on from there without new jobs and
  -- without a spurious wake-up of worker `i`, the pool is stopped and worker `i` still waits, so that
  -- its `join` does not return.
  pub lost_wakeup :
      (p q : Pool C Q) (es : List (Event C))
      → get_elem? p.workers i ≡ some blocking
      → p.notify_one_owed ≡ 0
      → p.notify_all_owed ≡ 0
      → All IsLate es
      → run H p (destructor_overtakes ++ es) ≡ ok q
      → (q.stop ≡ true) × (get_elem? q.workers i ≡ some waiting)
  lost_wakeup p q es b one all l h =
      let still : get_elem? (map woken p.workers) i ≡ some blocking =
        get_elem?-map-woken p.workers i blocking refl b in
      let there : get_elem? (set (map woken p.workers) i waiting) i ≡ some waiting =
        get_elem?-set_here (map woken p.workers) i waiting still in
      let (s, _, _, stopped) =
        run-Stuck es (with_worker H (stopping p) i waiting) q l (sym (destroyed p es still) ∙ h)
          (there, one, all, refl) in
      (stopped, s)
