-- ===== src/ThreadPool/Wakeups.antt =====
-- ThreadPool/ThreadPool_adv.cpp: notifications, and who can make a step.
use learning_c.Common.{
  ℕ, suc, ◌+◌, ◌<◌, ◌≡◌, ◌≢◌, ◌⊎◌, inl, inr, refl, Bool, true, false, some, List, [], ◌∷◌, map,
  get_elem?, length, arith,
}
use learning_c.ThreadPool.{
  Worker, Pool, Event, checking, asleep, exited, running, woken, step, run, create, total,
  asleep_one, exited_one, turn, notify_one, notify_all, notify_none, spurious_wakeup, add_task,
  set_stop, work, with_worker,
}
use learning_c.ThreadPool.Counts.{total-set, le-total, asleep-map-woken}
use learning_c.ThreadPool.Moves.{
  Move, sleep, leave, start, finish, wake_up, wake_one, wake_none, wake_all, submit, stop,
  step-Move, run-keeps, ℕ-cases,
}

module _ {T : Type 0} where
  -- the workers that hold or are about to take the lock, or run a task
  abbrev pub awake_one : Worker T → ℕ
  awake_one checking = 1
  awake_one asleep = 0
  awake_one exited = 0
  awake_one (running task) = 1

  pub record Heard (p : Pool T) : Type 0 where
    pub task_heard :
        p.task_queue ≡ []
        ⊎ (total asleep_one p.threads ≡ 0
            ⊎ (0 < p.notify_one_owed + p.notify_all_owed + total awake_one p.threads))
    pub stop_heard :
        p.stop_flag ≡ false ⊎ (total asleep_one p.threads ≡ 0 ⊎ (0 < p.notify_all_owed))

  Move-Heard : {p q : Pool T} {e : Event T} → Move p e q → Heard p → Heard q
  Move-Heard {p} (sleep i h e b) k = record { task_heard = inl e; stop_heard = inl b }
  Move-Heard {p} (leave i h e b) k = record {
    task_heard = inl e;
    stop_heard = ground (arith, k.stop_heard, total-set asleep_one p.threads i checking exited h);
  }
  Move-Heard {p} (start i t rest h e) k = record {
    task_heard = inr (
        inr (
          ground (
            arith,
            total-set awake_one p.threads i checking (running t) h,
            le-total awake_one p.threads i checking h,
          )));
    stop_heard =
        ground (arith, k.stop_heard, total-set asleep_one p.threads i checking (running t) h);
  }
  Move-Heard {p} (finish i t h) k = record {
    task_heard = inr (
        inr (
          ground (
            arith,
            total-set awake_one p.threads i (running t) checking h,
            le-total awake_one p.threads i (running t) h,
          )));
    stop_heard =
        ground (arith, k.stop_heard, total-set asleep_one p.threads i (running t) checking h);
  }
  Move-Heard {p} (wake_up i h) k = record {
    task_heard = inr (inr (ground (arith, total-set awake_one p.threads i asleep checking h)));
    stop_heard = ground (
      arith,
      k.stop_heard,
      total-set asleep_one p.threads i asleep checking h,
      le-total asleep_one p.threads i asleep h,
    );
  }
  Move-Heard {p} (wake_one i n e h) k = record {
    task_heard = inr (inr (ground (arith, total-set awake_one p.threads i asleep checking h)));
    stop_heard = ground (
      arith,
      k.stop_heard,
      total-set asleep_one p.threads i asleep checking h,
      le-total asleep_one p.threads i asleep h,
    );
  }
  Move-Heard {p} (wake_none n e h) k = record { task_heard = inr (inl h); stop_heard = inr (inl h) }
  Move-Heard {p} (wake_all n e) k = record {
    task_heard = inr (inl (asleep-map-woken p.threads));
    stop_heard = inr (inl (asleep-map-woken p.threads));
  }
  Move-Heard {p} (submit t l e) k = record {
    task_heard = inr (inr (ground arith));
    stop_heard = k.stop_heard;
  }
  Move-Heard {p} (stop b) k = record {
    task_heard = inr (inr (ground arith));
    stop_heard = inr (inr (ground arith));
  }

  reached-Heard : (n : ℕ) (es : List (Event T)) (p : Pool T) → run (create n) es ≡ some p → Heard p
  unfolding create
  reached-Heard n es p h =
      run-keeps Heard (λ r q e s. Move-Heard (step-Move r q e s)) es (create n) p h
        (record { task_heard = inl refl; stop_heard = inl refl })

  find_worker :
      (f : Worker T → ℕ) (ws : List (Worker T))
      → 0 < total f ws
      → (i : ℕ) × (w : Worker T) × (get_elem? ws i ≡ some w) × (0 < f w)
  unfolding total
  find_worker f [] h = absurd (omega arith)
  find_worker f (w ∷ ws) h = elim (ℕ-cases (f w)) [
    | inl z ↦ let (i, v, e, lt) = find_worker f ws (omega (arith, z, h)) in (suc i, v, e, lt)
    | inr (m, e) ↦ (0, w, refl, omega (arith, e))
  ]

  kinds :
      (ws : List (Worker T))
      → total awake_one ws + total asleep_one ws + total exited_one ws ≡ length ws
  unfolding total
  kinds [] = refl
  kinds (checking ∷ ws) = omega (arith, kinds ws)
  kinds (asleep ∷ ws) = omega (arith, kinds ws)
  kinds (exited ∷ ws) = omega (arith, kinds ws)
  kinds (running t ∷ ws) = omega (arith, kinds ws)

  -- the steps of the workers and the notifications that are owed
  abbrev pub internal : Event T → Bool
  internal (turn i) = true
  internal (spurious_wakeup i) = false
  internal (notify_one i) = true
  internal notify_none = true
  internal notify_all = true
  internal (add_task t) = false
  internal (set_stop b) = false

  abbrev pub CanStep : Pool T → Type 0
  CanStep p = (e : Event T) × (internal e ≡ true) × (q : Pool T) × (step p e ≡ some q)

  awake-CanStep : (p : Pool T) → 0 < total awake_one p.threads → CanStep p
  unfolding step
  awake-CanStep p h =
      let (i, w, e, lt) = find_worker awake_one p.threads h in
      let (q, s) = some_work p i w lt in (turn i, refl, q, ground (arith, s, e))
    where
      some_work :
          (p : Pool T) (i : ℕ) (w : Worker T)
          → 0 < awake_one w
          → (q : Pool T) × (work p i (some w) ≡ some q)
      some_work p i checking lt = (_, refl)
      some_work p i asleep lt = absurd (omega arith)
      some_work p i exited lt = absurd (omega arith)
      some_work p i (running t) lt = (_, refl)

  only-asleep : (w : Worker T) → 0 < asleep_one w → w ≡ asleep
  only-asleep checking h = absurd (omega arith)
  only-asleep asleep h = refl
  only-asleep exited h = absurd (omega arith)
  only-asleep (running t) h = absurd (omega arith)

  owed-CanStep : (p : Pool T) (n : ℕ) → p.notify_one_owed ≡ suc n → CanStep p
  unfolding step
  owed-CanStep p n o = elim (ℕ-cases (total asleep_one p.threads)) [
    | inl z ↦ (notify_none, refl, record p { notify_one_owed = n }, ground (arith, o, z))
    | inr (m, e) ↦
        let (i, w, g, lt) = find_worker asleep_one p.threads (omega (arith, e)) in
        let q : Pool T = record (with_worker p i checking) { notify_one_owed = n } in
        (notify_one i, refl, q, ground (arith, o, g, only-asleep w lt))
  ]

  all-CanStep : (p : Pool T) (n : ℕ) → p.notify_all_owed ≡ suc n → CanStep p
  unfolding step
  all-CanStep p n o =
      let q : Pool T = record p { notify_all_owed = n; threads = map woken p.threads } in
      (notify_all, refl, q, ground (arith, o))

  -- While a task is queued or the stop flag is set, and some worker has not returned, a worker or a
  -- notification that is owed can make a step.
  pub no_lost_wakeup :
      (n : ℕ) (es : List (Event T)) (p : Pool T)
      → run (create n) es ≡ some p
      → p.task_queue ≢ [] ⊎ (p.stop_flag ≡ true)
      → total exited_one p.threads < length p.threads
      → CanStep p
  no_lost_wakeup n es p h work left =
      let k = reached-Heard n es p h in
      elim (ℕ-cases (total awake_one p.threads)) [
        | inr (m, e) ↦ awake-CanStep p (omega (arith, e))
        | inl z ↦ elim (ℕ-cases p.notify_one_owed) [
          | inr (m, e) ↦ owed-CanStep p m e
          | inl o ↦ elim (ℕ-cases p.notify_all_owed) [
            | inr (m, e) ↦ all-CanStep p m e
            | inl a ↦
                absurd
                  (ground (arith, k.task_heard, k.stop_heard, kinds p.threads, work, left, z, o, a))
          ]
        ]
      ]
