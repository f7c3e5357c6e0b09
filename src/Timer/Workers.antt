-- ===== src/Timer/Workers.antt =====
-- boost/timer.cpp: what the steps of a pool do to its parts, one lemma for each kind of event, and
-- induction along a schedule.
use learning_c.Common.{
  ℕ, zero, suc, ◌+◌, ◌≡◌, refl, sym, subst, Bool, true, false, Option, none, some, List, [], ◌∷◌,
  arith, ◌==◌, leb, if◌then◌else◌, Bool-cases, inl, inr, get_elem?, ok, >>=-eq-ok, pos, ◌+ℤ◌, ltbℤ,
  negate,
}
use learning_c.PriorityQueue.{PriorityQueue}
use learning_c.Timer.{
  TimeEvent, Worker, checking, blocking, waiting, exited, computing, sleeping, running, Pool, Event,
  turn, spurious_wakeup, notify_one, notify_all, set_stop, tick, enqueue, adjust_timing,
  is_blocking, is_waiting, any, with_worker, take_or_sleep, test_queue, compute, work, wake,
  deliver, deliver_all, add, step, run, seconds, waits, woken,
}

module _ {C Q : Type 0} (H : PriorityQueue (TimeEvent C) Q) where
  -- What a step does to the queue and the history: nothing, or a job is started or added.
  pub data Effect (p q : Pool C Q) : Type 0 where
    none_ :
        p.time_q ≡ q.time_q
        → p.started ≡ q.started
        → p.enqueued ≡ q.enqueued
        → p.changes ≡ q.changes
        → Effect p q
    took :
        (e : TimeEvent C)
        → H.top p.time_q ≡ some e
        → ltbℤ (e.time +ℤ p.time_adjustment) (pos p.clock) ≡ true
        → H.pop p.time_q ≡ q.time_q
        → (record { event = e; now = p.clock; adjustment = p.time_adjustment } ∷ p.started)
          ≡ q.started
        → p.enqueued ≡ q.enqueued
        → suc p.changes ≡ q.changes
        → Effect p q
    added :
        (e : TimeEvent C)
        → H.push e p.time_q ≡ q.time_q
        → p.started ≡ q.started
        → (e ∷ p.enqueued) ≡ q.enqueued
        → suc p.changes ≡ q.changes
        → Effect p q

  if_same : (p a b : Pool C Q) (c : Bool) → Effect p a → Effect p b → Effect p (if c then a else b)
  if_same p a b true h k = h
  if_same p a b false h k = k

  unchanged : (p : Pool C Q) → Effect p p
  unchanged p = none_ refl refl refl refl

  worker_only : (p : Pool C Q) (i : ℕ) (w : Worker C) → Effect p (with_worker H p i w)
  worker_only p i w = none_ refl refl refl refl

  test_queue-Effect :
      (p : Pool C Q) (i : ℕ) (o : Option (TimeEvent C)) (b : Bool)
      → H.top p.time_q ≡ o
      → Effect p (test_queue H p i o b)
  test_queue-Effect p i none false h = worker_only p i blocking
  test_queue-Effect p i none true h = worker_only p i exited
  test_queue-Effect p i (some e) b h =
      elim (Bool-cases (ltbℤ (e.time +ℤ p.time_adjustment) (pos p.clock))) [
        | inl y ↦
            subst (λ due. Effect p (take_or_sleep H p i e due)) (sym y)
              (took e h y refl refl refl refl)
        | inr n ↦
            subst (λ due. Effect p (take_or_sleep H p i e due)) (sym n)
              (worker_only p i (computing p.clock p.changes))
      ]

  pub compute-ok :
      (p q : Pool C Q) (i now changes : ℕ) (o : Option (TimeEvent C))
      → compute H p i now changes o ≡ ok q
      → (until : ℕ) × (with_worker H p i (sleeping until) ≡ q)
  compute-ok p q i now changes none h = absurd (ground arith)
  compute-ok p q i now changes (some e) h = elim (Bool-cases (changes == p.changes)) [
    | inl y ↦
        (p.clock + seconds ((e.time +ℤ p.time_adjustment) +ℤ negate (pos now)), ground (arith, y))
    | inr n ↦ absurd (ground (arith, n))
  ]

  work-Effect : (p q : Pool C Q) (i : ℕ) (o : Option (Worker C)) → work H p i o ≡ ok q → Effect p q
  work-Effect p q i none h = let e : p ≡ q = ground arith in subst (Effect p) e (unchanged p)
  work-Effect p q i (some checking) h =
      let e : (if any is_blocking p.workers then p else test_queue H p i (H.top p.time_q) p.stop)
          ≡ q =
        ground arith in
      subst (Effect p) e (
        if_same p p (test_queue H p i (H.top p.time_q) p.stop) (any is_blocking p.workers)
          (unchanged p) (test_queue-Effect p i (H.top p.time_q) p.stop refl))
  work-Effect p q i (some blocking) h =
      let e : with_worker H p i waiting ≡ q = ground arith in
      subst (Effect p) e (worker_only p i waiting)
  work-Effect p q i (some waiting) h =
      let e : p ≡ q = ground arith in subst (Effect p) e (unchanged p)
  work-Effect p q i (some exited) h =
      let e : p ≡ q = ground arith in subst (Effect p) e (unchanged p)
  work-Effect p q i (some (computing now changes)) h =
      let (until, e) = compute-ok p q i now changes (H.top p.time_q) h in
      subst (Effect p) e (worker_only p i (sleeping until))
  work-Effect p q i (some (sleeping until)) h =
      let e : (if leb until p.clock then with_worker H p i checking else p) ≡ q = ground arith in
      subst (Effect p) e (
        if_same p (with_worker H p i checking) p (leb until p.clock) (worker_only p i checking)
          (unchanged p))
  work-Effect p q i (some (running e)) h =
      let same : with_worker H p i checking ≡ q = ground arith in
      subst (Effect p) same (worker_only p i checking)

  wake-Effect : (p : Pool C Q) (i : ℕ) (o : Option (Worker C)) → Effect p (wake H p i o)
  wake-Effect p i none = unchanged p
  wake-Effect p i (some w) = worker_only p i (woken w)

  deliver-Effect : (p : Pool C Q) (i n : ℕ) → Effect p (deliver H p i n)
  deliver-Effect p i zero = unchanged p
  deliver-Effect p i (suc n) =
      if_same p (record (with_worker H p i checking) { notify_one_owed = n })
        (if any is_waiting p.workers then p else record p { notify_one_owed = n })
        (waits H (get_elem? p.workers i)) (none_ refl refl refl refl)
        (if_same p p (record p { notify_one_owed = n }) (any is_waiting p.workers) (unchanged p)
          (none_ refl refl refl refl))

  deliver_all-Effect : (p : Pool C Q) (n : ℕ) → Effect p (deliver_all H p n)
  deliver_all-Effect p zero = unchanged p
  deliver_all-Effect p (suc n) = none_ refl refl refl refl

  pub step-Effect : (p q : Pool C Q) (e : Event C) → step H p e ≡ ok q → Effect p q
  unfolding step
  step-Effect p q (turn i) h = work-Effect p q i (get_elem? p.workers i) h
  step-Effect p q (spurious_wakeup i) h =
      let same : wake H p i (get_elem? p.workers i) ≡ q = ground arith in
      subst (Effect p) same (wake-Effect p i (get_elem? p.workers i))
  step-Effect p q (notify_one i) h =
      let same : deliver H p i p.notify_one_owed ≡ q = ground arith in
      subst (Effect p) same (deliver-Effect p i p.notify_one_owed)
  step-Effect p q notify_all h =
      let same : deliver_all H p p.notify_all_owed ≡ q = ground arith in
      subst (Effect p) same (deliver_all-Effect p p.notify_all_owed)
  step-Effect p q set_stop h =
      let same : record p { stop = true; notify_all_owed = suc p.notify_all_owed } ≡ q =
        ground arith in
      subst (Effect p) same (none_ refl refl refl refl)
  step-Effect p q tick h =
      let same : record p { clock = suc p.clock } ≡ q = ground arith in
      subst (Effect p) same (none_ refl refl refl refl)
  step-Effect p q (enqueue e) h =
      let same : add H p e ≡ q = ground arith in
      subst (Effect p) same (
        if_same p p
          (record p {
            time_q = H.push e p.time_q;
            changes = suc p.changes;
            notify_one_owed = suc p.notify_one_owed;
            enqueued = e ∷ p.enqueued;
          })
          (any is_blocking p.workers) (unchanged p) (added e refl refl refl refl))
  step-Effect p q (adjust_timing adjustment) h =
      let same : record p { time_adjustment = adjustment } ≡ q = ground arith in
      subst (Effect p) same (none_ refl refl refl refl)

  -- what every step keeps, every schedule keeps
  pub run-keeps :
      (P : Pool C Q → Type 0)
      → ((p q : Pool C Q) (e : Event C) → step H p e ≡ ok q → P p → P q)
      → (es : List (Event C)) (p q : Pool C Q) → run H p es ≡ ok q
      → P p
      → P q
  unfolding run
  run-keeps P keep [] p q h k = let e : p ≡ q = ground arith in subst P e k
  run-keeps P keep (e ∷ es) p q h k =
      let (r, s, rest) = >>=-eq-ok (step H p e) (λ r. run H r es) h in
      run-keeps P keep es r q rest (keep p r e s k)
