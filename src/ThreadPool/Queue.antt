-- ===== src/ThreadPool/Queue.antt =====
-- ThreadPool/ThreadPool_adv.cpp: the tasks queued, started, in hand and finished.
use mathlib.Core.List.{append_assoc, Perm, Permᴰ}
use mathlib.Core.List.Permᴰ as Permᴰ
use learning_c.Common.{
  ℕ, zero, suc, ◌≡◌, refl, sym, ap, subst, some, List, [], ◌∷◌, ◌++◌, map, get_elem?, set, arith,
}
use learning_c.ThreadPool.{
  Worker, Pool, Event, checking, asleep, exited, running, woken, step, run, create, workers,
}
use learning_c.ThreadPool.Moves.{
  Move, run-keeps, sleep, leave, start, finish, wake_up, wake_one, wake_none, wake_all, submit,
  stop, step-Move,
}

module _ {T : Type 0} where
  abbrev pub hand : Worker T → List T
  hand checking = []
  hand asleep = []
  hand exited = []
  hand (running task) = task ∷ []

  -- the tasks that the workers are running
  unfoldable pub in_hand : List (Worker T) → List T
  in_hand [] = []
  in_hand (w ∷ ws) = hand w ++ in_hand ws

  in_hand-workers : (n : ℕ) → in_hand (workers n) ≡ []
  unfolding in_hand
  in_hand-workers zero = refl
  in_hand-workers (suc n) = in_hand-workers n

  in_hand-woken : (ws : List (Worker T)) → in_hand (map woken ws) ≡ in_hand ws
  unfolding in_hand
  in_hand-woken [] = refl
  in_hand-woken (checking ∷ ws) = in_hand-woken ws
  in_hand-woken (asleep ∷ ws) = in_hand-woken ws
  in_hand-woken (exited ∷ ws) = in_hand-woken ws
  in_hand-woken (running t ∷ ws) = ap (λ l. t ∷ l) (in_hand-woken ws)

  rotate : (a b c : List T) → Permᴰ (a ++ (b ++ c)) (b ++ (a ++ c))
  rotate a b c =
      subst (λ l. Permᴰ l (b ++ (a ++ c))) (append_assoc a b c)
        (subst (Permᴰ ((a ++ b) ++ c)) (append_assoc b a c)
          (Permᴰ.append_right c (Permᴰ.append_comm a b)))

  -- what a change of one worker does to them
  in_hand-set :
      (ws : List (Worker T)) (i : ℕ) (old new : Worker T)
      → get_elem? ws i ≡ some old
      → Permᴰ (hand old ++ in_hand (set ws i new)) (hand new ++ in_hand ws)
  unfolding in_hand
  in_hand-set [] i old new h = absurd (ground arith)
  in_hand-set (w ∷ ws) zero old new h =
      let e : w ≡ old = ground arith in
      subst (λ v. Permᴰ (hand v ++ (hand new ++ in_hand ws)) (hand new ++ (hand w ++ in_hand ws))) e
        (rotate (hand w) (hand new) (in_hand ws))
  in_hand-set (w ∷ ws) (suc i) old new h =
      Permᴰ.trans (rotate (hand old) (hand w) (in_hand (set ws i new))) (
        Permᴰ.trans (Permᴰ.append_left (hand w) (in_hand-set ws i old new h))
          (rotate (hand w) (hand new) (in_hand ws)))

  pub record Ordered (p : Pool T) : Type 0 where
    pub fifo : p.started ++ p.task_queue ≡ p.submitted
    pub accounted : Permᴰ p.started (p.finished ++ in_hand p.threads)

  recount : {s l l' : List T} (f : List T) → Permᴰ s (f ++ l) → Permᴰ l' l → Permᴰ s (f ++ l')
  recount f k e = Permᴰ.trans k (Permᴰ.append_left f (Permᴰ.symm e))

  recount_start :
      {s l l' : List T} (f : List T) (t : T)
      → Permᴰ s (f ++ l)
      → Permᴰ l' (t ∷ l)
      → Permᴰ (s ++ t ∷ []) (f ++ l')
  recount_start {s} {l} f t k e =
      recount f
        (Permᴰ.trans (Permᴰ.append_comm s (t ∷ []))
          (Permᴰ.trans (Permᴰ.cons refl k) (Permᴰ.symm (Permᴰ.middle t f l))))
        e

  recount_finish :
      {s l l' : List T} (f : List T) (t : T)
      → Permᴰ s (f ++ l)
      → Permᴰ (t ∷ l') l
      → Permᴰ s ((f ++ t ∷ []) ++ l')
  recount_finish {s} {l' = l'} f t k e =
      subst (Permᴰ s) (sym (append_assoc f (t ∷ []) l')) (recount f k e)

  Move-Ordered : {p q : Pool T} {e : Event T} → Move p e q → Ordered p → Ordered q
  Move-Ordered {p} (sleep i h e b) k = record {
    fifo = k.fifo;
    accounted = recount p.finished k.accounted (in_hand-set p.threads i checking asleep h);
  }
  Move-Ordered {p} (leave i h e b) k = record {
    fifo = k.fifo;
    accounted = recount p.finished k.accounted (in_hand-set p.threads i checking exited h);
  }
  Move-Ordered {p} (start i t rest h e) k = record {
    fifo = ground (arith, k.fifo, e, append_assoc p.started (t ∷ []) rest);
    accounted =
        recount_start p.finished t k.accounted (in_hand-set p.threads i checking (running t) h);
  }
  Move-Ordered {p} (finish i t h) k = record {
    fifo = k.fifo;
    accounted =
        recount_finish p.finished t k.accounted (in_hand-set p.threads i (running t) checking h);
  }
  Move-Ordered {p} (wake_up i h) k = record {
    fifo = k.fifo;
    accounted = recount p.finished k.accounted (in_hand-set p.threads i asleep checking h);
  }
  Move-Ordered {p} (wake_one i n e h) k = record {
    fifo = k.fifo;
    accounted = recount p.finished k.accounted (in_hand-set p.threads i asleep checking h);
  }
  Move-Ordered {p} (wake_none n e h) k = record { fifo = k.fifo; accounted = k.accounted }
  Move-Ordered {p} (wake_all n e) k = record {
    fifo = k.fifo;
    accounted =
        subst (λ l. Permᴰ p.started (p.finished ++ l)) (sym (in_hand-woken p.threads)) k.accounted;
  }
  Move-Ordered {p} (submit t l e) k = record {
    fifo = ground (arith, k.fifo, append_assoc p.started p.task_queue (t ∷ []));
    accounted = k.accounted;
  }
  Move-Ordered {p} (stop b) k = record { fifo = k.fifo; accounted = k.accounted }

  pub create-Ordered : (n : ℕ) → Ordered (create n)
  unfolding create
  create-Ordered n = record {
    fifo = refl;
    accounted = subst (Permᴰ []) (sym (in_hand-workers n)) (Permᴰ.refl []);
  }

  pub step-Ordered : (p q : Pool T) (e : Event T) → step p e ≡ some q → Ordered p → Ordered q
  step-Ordered p q e h = Move-Ordered (step-Move p q e h)

  pub reached-Ordered :
      (n : ℕ) (es : List (Event T)) (p : Pool T) → run (create n) es ≡ some p → Ordered p
  reached-Ordered n es p h = run-keeps Ordered step-Ordered es (create n) p h (create-Ordered n)

  -- In every schedule of a new pool the tasks that have started, in their order, followed by the
  -- queue are the submitted tasks in the order of their submission, and the started tasks are a
  -- permutation of the finished ones and those that the workers are running.
  pub tasks_in_order :
      (n : ℕ) (es : List (Event T)) (p : Pool T)
      → run (create n) es ≡ some p
      → (p.started ++ p.task_queue ≡ p.submitted) × Perm p.started (p.finished ++ in_hand p.threads)
  tasks_in_order n es p h = let k = reached-Ordered n es p h in (k.fifo, ∣ k.accounted ∣₁)
