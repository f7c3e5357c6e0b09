-- ===== src/ThreadPool/Shutdown.antt =====
-- ThreadPool/ThreadPool_adv.cpp: the pool when its workers have returned.
use mathlib.Core.List.{append-nil, append_assoc, Perm, Permᴰ}
use learning_c.Common.{
  ℕ, zero, suc, ◌<◌, ◌≤◌, ◌≡◌, ◌⊎◌, inl, inr, refl, sym, subst, ap, ◌∙◌, some, List, [], ◌∷◌, ◌++◌,
  get_elem?, set, length, arith, ◌==◌, ==_iff, length-set, if◌then◌else◌, Bool-cases,
}
use learning_c.ThreadPool.{
  Worker, Pool, Event, checking, asleep, exited, running, add_task, step, run, total, exited_one,
  create, workers,
}
use learning_c.ThreadPool.Counts.{total-set, length-map-woken, exited-map-woken}
use learning_c.ThreadPool.Moves.{
  Move, sleep, leave, start, finish, wake_up, wake_one, wake_none, wake_all, submit, stop,
  step-Move, run-keeps,
}
use learning_c.ThreadPool.Queue.{in_hand, reached-Ordered}

length-workers : (T : Type 0) (n : ℕ) → length {A = Worker T} (workers n) ≡ n
length-workers T zero = refl
length-workers T (suc n) = omega (arith, length-workers T n)

module _ {T : Type 0} where
  -- every worker has returned
  abbrev pub AllExited : Pool T → Type 0
  AllExited p = total exited_one p.threads ≡ length p.threads

  abbrev pub Drained : Pool T → Type 0
  Drained p = total exited_one p.threads ≡ 0 ⊎ (p.task_queue ≡ [] ⊎ (0 < p.late))

  exited-le-length : (ws : List (Worker T)) → total exited_one ws ≤ length ws
  unfolding total
  exited-le-length [] = omega arith
  exited-le-length (checking ∷ ws) = omega (arith, exited-le-length ws)
  exited-le-length (asleep ∷ ws) = omega (arith, exited-le-length ws)
  exited-le-length (exited ∷ ws) = omega (arith, exited-le-length ws)
  exited-le-length (running t ∷ ws) = omega (arith, exited-le-length ws)

  Move-Drained : {p q : Pool T} {e : Event T} → Move p e q → Drained p → Drained q
  Move-Drained {p} (sleep i h e b) k = inr (inl e)
  Move-Drained {p} (leave i h e b) k = inr (inl e)
  Move-Drained {p} (start i t rest h e) k =
      ground (arith, k, e, total-set exited_one p.threads i checking (running t) h)
  Move-Drained {p} (finish i t h) k =
      ground (arith, k, total-set exited_one p.threads i (running t) checking h)
  Move-Drained {p} (wake_up i h) k =
      ground (arith, k, total-set exited_one p.threads i asleep checking h)
  Move-Drained {p} (wake_one i n e h) k =
      ground (arith, k, total-set exited_one p.threads i asleep checking h)
  Move-Drained {p} (wake_none n e h) k = k
  Move-Drained {p} (wake_all n e) k = ground (arith, k, exited-map-woken p.threads)
  Move-Drained {p} (submit t l e) k = elim (Bool-cases (total exited_one p.threads == 0)) [
    | inl y ↦ inl ((==_iff (total exited_one p.threads) 0).0 y)
    | inr f ↦ inr (inr (ground (arith, e, f)))
  ]
  Move-Drained {p} (stop b) k = k

  reached-Drained :
      (n : ℕ) (es : List (Event T)) (p : Pool T) → run (create n) es ≡ some p → Drained p
  unfolding create
  reached-Drained n es p h =
      run-keeps Drained (λ r q e s. Move-Drained (step-Move r q e s)) es (create n) p h
        (inr (inl refl))

  Move-size : {p q : Pool T} {e : Event T} → Move p e q → length q.threads ≡ length p.threads
  Move-size {p} (sleep i h e b) = length-set p.threads i asleep
  Move-size {p} (leave i h e b) = length-set p.threads i exited
  Move-size {p} (start i t rest h e) = length-set p.threads i (running t)
  Move-size {p} (finish i t h) = length-set p.threads i checking
  Move-size {p} (wake_up i h) = length-set p.threads i checking
  Move-size {p} (wake_one i n e h) = length-set p.threads i checking
  Move-size {p} (wake_none n e h) = refl
  Move-size {p} (wake_all n e) = length-map-woken p.threads
  Move-size {p} (submit t l e) = refl
  Move-size {p} (stop b) = refl

  reached-size :
      (n : ℕ) (es : List (Event T)) (p : Pool T) → run (create n) es ≡ some p → length p.threads ≡ n
  unfolding create
  reached-size n es p h =
      run-keeps (λ r. length r.threads ≡ n) (λ r q e s k. Move-size (step-Move r q e s) ∙ k) es
        (create n) p h (length-workers T n)

  -- a list of workers that have all returned
  AllExited-in_hand : (ws : List (Worker T)) → total exited_one ws ≡ length ws → in_hand ws ≡ []
  unfolding total in_hand
  AllExited-in_hand [] h = refl
  AllExited-in_hand (checking ∷ ws) h = absurd (omega (arith, exited-le-length ws, h))
  AllExited-in_hand (asleep ∷ ws) h = absurd (omega (arith, exited-le-length ws, h))
  AllExited-in_hand (exited ∷ ws) h = AllExited-in_hand ws (omega (arith, h))
  AllExited-in_hand (running t ∷ ws) h = absurd (omega (arith, exited-le-length ws, h))

  -- Once every worker of a pool of at least one worker has returned, and no task was submitted
  -- after the first return, the queue is empty and the finished tasks are a permutation of the
  -- submitted ones.
  pub shutdown_drains :
      (n : ℕ) (es : List (Event T)) (p : Pool T)
      → run (create (suc n)) es ≡ some p
      → AllExited p
      → p.late ≡ 0
      → (p.task_queue ≡ []) × Perm p.submitted p.finished
  shutdown_drains n es p h all late =
      let k = reached-Ordered (suc n) es p h in
      let size = reached-size (suc n) es p h in
      let drained : p.task_queue ≡ [] =
        ground (arith, reached-Drained (suc n) es p h, all, late, size) in
      let done : p.finished ++ in_hand p.threads ≡ p.finished =
        ap (λ l. p.finished ++ l) (AllExited-in_hand p.threads all) ∙ append-nil p.finished in
      let sub : p.started ≡ p.submitted =
        sym (append-nil p.started) ∙ ap (λ l. p.started ++ l) (sym drained) ∙ k.fifo in
      (drained, ∣ subst (λ l. Permᴰ l p.finished) sub (subst (Permᴰ p.started) done k.accounted) ∣₁)

  exited_one-le_1 : (w : Worker T) → exited_one w ≤ 1
  exited_one-le_1 checking = omega arith
  exited_one-le_1 asleep = omega arith
  exited_one-le_1 exited = omega arith
  exited_one-le_1 (running t) = omega arith

  -- a worker among those that have all returned
  gone :
      (ws : List (Worker T)) (i : ℕ) (w : Worker T)
      → total exited_one ws ≡ length ws
      → get_elem? ws i ≡ some w
      → exited_one w ≡ 1
  gone ws i w all h =
      let after = exited-le-length (set ws i exited) in
      omega (
        arith,
        total-set exited_one ws i w exited h,
        after,
        length-set ws i exited,
        all,
        exited_one-le_1 w,
      )

  -- Since `p`, nothing was started or finished, and what was submitted since is in the queue.
  abbrev pub Same : Pool T → Pool T → Type 0
  Same p q =
      (q.started ≡ p.started)
      × (q.finished ≡ p.finished)
      × ((later : List T) × (q.submitted ≡ p.submitted ++ later)
          × (q.task_queue ≡ p.task_queue ++ later))

  unchanged-Same : (p : Pool T) → Same p p
  unchanged-Same p = (refl, refl, ([], sym (append-nil p.submitted), sym (append-nil p.task_queue)))

  Gone-Move : {p q : Pool T} {e : Event T} → Move p e q → AllExited p → AllExited q × Same p q
  Gone-Move {p} (sleep i h e b) k = absurd (omega (arith, gone p.threads i checking k h))
  Gone-Move {p} (leave i h e b) k = absurd (omega (arith, gone p.threads i checking k h))
  Gone-Move {p} (start i t rest h e) k = absurd (omega (arith, gone p.threads i checking k h))
  Gone-Move {p} (finish i t h) k = absurd (omega (arith, gone p.threads i (running t) k h))
  Gone-Move {p} (wake_up i h) k = absurd (omega (arith, gone p.threads i asleep k h))
  Gone-Move {p} (wake_one i n e h) k = absurd (omega (arith, gone p.threads i asleep k h))
  Gone-Move {p} (wake_none n e h) k = (k, unchanged-Same p)
  Gone-Move {p} (wake_all n e) k =
      (ground (arith, exited-map-woken p.threads, length-map-woken p.threads, k), unchanged-Same p)
  Gone-Move {p} (submit t l e) k = (k, (refl, refl, (t ∷ [], refl, refl)))
  Gone-Move {p} (stop b) k = (k, unchanged-Same p)

  Same-trans : (p q r : Pool T) → Same p q → Same q r → Same p r
  Same-trans p q r (a, b, (before, c, d)) (a₂, b₂, (later, c₂, d₂)) = (
    a₂ ∙ a,
    b₂ ∙ b,
    (
      before ++ later,
      c₂ ∙ ap (λ l. l ++ later) c ∙ append_assoc p.submitted before later,
      d₂ ∙ ap (λ l. l ++ later) d ∙ append_assoc p.task_queue before later,
    ),
  )

  run-Same :
      (p q : Pool T) (es : List (Event T))
      → run p es ≡ some q
      → AllExited p
      → AllExited q × Same p q
  run-Same p q es h k =
      run-keeps (λ r. AllExited r × Same p r)
        (λ r u e s m.
          let (all, since) = Gone-Move (step-Move r u e s) m.0 in (all, Same-trans p r u m.1 since))
        es p q h (k, unchanged-Same p)

  -- Once every worker has returned, along every schedule that follows no task is started or finished
  -- and all that are submitted stay in the queue; and `addTask` then still accepts another one.
  pub late_tasks_kept :
      (p q : Pool T) (es : List (Event T)) (t : T)
      → AllExited p
      → run p es ≡ some q
      → Same p q
        × ((r : Pool T) × (step q (add_task t) ≡ some r)
            × (r.submitted ≡ q.submitted ++ t ∷ [])
            × (r.task_queue ≡ q.task_queue ++ t ∷ []))
  unfolding step
  late_tasks_kept p q es t k h = (
    (run-Same p q es h k).1,
    (
      record q {
        task_queue = q.task_queue ++ t ∷ [];
        notify_one_owed = suc q.notify_one_owed;
        submitted = q.submitted ++ t ∷ [];
        late = if total exited_one q.threads == 0 then q.late else suc q.late;
      },
      refl,
      refl,
      refl,
    ),
  )
