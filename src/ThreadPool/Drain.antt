-- ===== src/ThreadPool/Drain.antt =====
-- ThreadPool/ThreadPool_adv.cpp: a pool that is left to itself.
use learning_c.Common.{
  ℕ, suc, ◌+◌, ◌*◌, ◌<◌, ◌≤◌, ◌≡◌, inl, inr, ap, subst, true, some, List, [], ◌∷◌, map, length,
  length-set, arith, Option-cases, All,
}
use learning_c.ThreadPool.{
  Worker, Pool, Event, checking, asleep, exited, running, woken, step, run, total,
}
use learning_c.ThreadPool.Counts.{total-set, length-map-woken}
use learning_c.ThreadPool.Moves.{
  Move, sleep, leave, start, finish, wake_up, wake_one, wake_none, wake_all, submit, stop,
  step-Move,
}
use learning_c.ThreadPool.Wakeups.{internal}

module _ {T : Type 0} where
  abbrev pub left_one : Worker T → ℕ
  left_one checking = 2
  left_one asleep = 1
  left_one exited = 0
  left_one (running task) = 3

  -- a bound on the steps left: what each worker, task and notification may still cause
  abbrev pub steps_left : Pool T → ℕ
  steps_left p =
      total left_one p.threads
      + 2 * length p.task_queue
      + 2 * p.notify_one_owed
      + p.notify_all_owed * suc (length p.threads)

  left-map-woken :
      (ws : List (Worker T)) → total left_one (map woken ws) ≤ total left_one ws + length ws
  unfolding total
  left-map-woken [] = omega arith
  left-map-woken (checking ∷ ws) = omega (arith, left-map-woken ws)
  left-map-woken (asleep ∷ ws) = omega (arith, left-map-woken ws)
  left-map-woken (exited ∷ ws) = omega (arith, left-map-woken ws)
  left-map-woken (running t ∷ ws) = omega (arith, left-map-woken ws)

  Move-steps_left :
      {p q : Pool T} {e : Event T} → Move p e q → internal e ≡ true → steps_left q < steps_left p
  Move-steps_left {p} (sleep i h e b) y =
      ground
        (arith, total-set left_one p.threads i checking asleep h, length-set p.threads i asleep)
  Move-steps_left {p} (leave i h e b) y =
      ground
        (arith, total-set left_one p.threads i checking exited h, length-set p.threads i exited)
  Move-steps_left {p} (start i t rest h e) y = ground (
    arith,
    total-set left_one p.threads i checking (running t) h,
    length-set p.threads i (running t),
    e,
  )
  Move-steps_left {p} (finish i t h) y = ground (
    arith,
    total-set left_one p.threads i (running t) checking h,
    length-set p.threads i checking,
  )
  Move-steps_left {p} (wake_up i h) y = absurd (ground arith)
  Move-steps_left {p} (wake_one i n e h) y =
      ground (
        arith,
        total-set left_one p.threads i asleep checking h,
        length-set p.threads i checking,
        e,
      )
  Move-steps_left {p} (wake_none n e h) y = ground (arith, e)
  Move-steps_left {p} (wake_all n e) y =
      let same : n * suc (length (map woken p.threads)) ≡ n * suc (length p.threads) =
        ap (λ l. n * suc l) (length-map-woken p.threads) in
      let owed : p.notify_all_owed * suc (length p.threads) ≡ suc n * suc (length p.threads) =
        ap (λ m. m * suc (length p.threads)) e in
      let less : suc n * suc (length p.threads)
          ≡ suc (length p.threads) + n * suc (length p.threads) =
        omega arith in
      omega (arith, left-map-woken p.threads, same, owed, less)
  Move-steps_left {p} (submit t l e) y = absurd (ground arith)
  Move-steps_left {p} (stop b) y = absurd (ground arith)

  -- A schedule of the pool's own steps, with no caller and no spurious wake-up in it, is no longer
  -- than the bound, which is known before it begins.
  pub own_steps_end :
      (p q : Pool T) (es : List (Event T))
      → All (λ e. internal e ≡ true) es
      → run p es ≡ some q
      → length es + steps_left q ≤ steps_left p
  unfolding run
  own_steps_end p q [] own h =
      let same : p ≡ q = ground arith in
      subst (λ r. length {A = Event T} [] + steps_left r ≤ steps_left p) same (omega arith)
  own_steps_end p q (e ∷ es) own h = elim (Option-cases (step p e)) [
    | inl n ↦ absurd (ground (arith, n))
    | inr (r, s) ↦
        let rest : run r es ≡ some q = ground (arith, s) in
        omega (arith, own_steps_end r q es own.1 rest, Move-steps_left (step-Move p r e s) own.0)
  ]
