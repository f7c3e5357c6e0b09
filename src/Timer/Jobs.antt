-- ===== src/Timer/Jobs.antt =====
-- boost/timer.cpp: when the jobs of a pool start, and that none is lost.
use learning_c.Common.{
  ℕ, ◌≡◌, refl, sym, subst, true, false, List, [], ◌∷◌, ◌++◌, All, ok, pos, ◌+ℤ◌, ltbℤ,
}
use mathlib.Core.List.{Permᴰ}
use mathlib.Core.List.Permᴰ
use learning_c.PriorityQueue.{PriorityQueue, IsPriorityQueue}
use learning_c.Timer.{TimeEvent, less, Pool, Start, Event, start, run}
use learning_c.Timer.Workers.{Effect, none_, took, added, step-Effect, run-keeps}

module _ {C : Type 0} where
  -- The job's time, adjusted, had passed.
  abbrev pub IsDue : Start C → Type 0
  IsDue s = ltbℤ (s.event.time +ℤ s.adjustment) (pos s.now) ≡ true

  abbrev pub events : List (Start C) → List (TimeEvent C)
  events [] = []
  events (s ∷ ss) = s.event ∷ events ss

module _ {C Q : Type 0} (H : PriorityQueue (TimeEvent C) Q) (L : IsPriorityQueue less H) where
  -- A step that starts a job takes one that nothing in the queue precedes, and reads the clock then.
  abbrev pub StartsEarliest : Pool C Q → Pool C Q → Type 0
  StartsEarliest p q =
      (s : Start C) × (q.started ≡ s ∷ p.started)
      × (s.now ≡ p.clock)
      × (s.adjustment ≡ p.time_adjustment)
      × IsDue s
      × All (λ x. less s.event x ≡ false) (H.contents p.time_q)

  abbrev Conserved : Pool C Q → Type 0
  Conserved p = Permᴰ p.enqueued (events p.started ++ H.contents p.time_q) × All IsDue p.started

  Effect-Conserved : (p q : Pool C Q) → Effect H p q → Conserved p → Conserved q
  Effect-Conserved p q (none_ t s e _) (c, d) = (
    subst (λ l. Permᴰ l (events q.started ++ H.contents q.time_q)) e
        (subst (λ l. Permᴰ p.enqueued (events l ++ H.contents q.time_q)) s
          (subst (λ l. Permᴰ p.enqueued (events p.started ++ H.contents l)) t c)),
    subst (All IsDue) s d,
  )
  Effect-Conserved p q (took a top due t s e _) (c, d) =
      let moved : Permᴰ p.enqueued (a ∷ (events p.started ++ H.contents (H.pop p.time_q))) =
        Permᴰ.trans c (
          Permᴰ.trans
            (Permᴰ.append_left (events p.started) (Permᴰ.symm (L.contents-pop a p.time_q top)))
            (Permᴰ.middle a (events p.started) (H.contents (H.pop p.time_q)))) in
      (
        subst (λ l. Permᴰ l (events q.started ++ H.contents q.time_q)) e
            (subst (λ l. Permᴰ p.enqueued (events l ++ H.contents q.time_q)) s
              (subst (λ l. Permᴰ p.enqueued (a ∷ (events p.started ++ H.contents l))) t moved)),
        subst (All IsDue) s (due, d),
      )
  Effect-Conserved p q (added a t s e _) (c, d) =
      let moved : Permᴰ (a ∷ p.enqueued) (events p.started ++ H.contents (H.push a p.time_q)) =
        Permᴰ.trans (Permᴰ.cons refl c) (
          Permᴰ.trans (Permᴰ.symm (Permᴰ.middle a (events p.started) (H.contents p.time_q)))
            (Permᴰ.append_left (events p.started) (L.contents-push a p.time_q))) in
      (
        subst (λ l. Permᴰ l (events q.started ++ H.contents q.time_q)) e
            (subst (λ l. Permᴰ (a ∷ p.enqueued) (events l ++ H.contents q.time_q)) s
              (subst (λ l. Permᴰ (a ∷ p.enqueued) (events p.started ++ H.contents l)) t moved)),
        subst (All IsDue) s d,
      )

  start-Conserved : (n : ℕ) → Conserved (start H n)
  start-Conserved n = (subst (Permᴰ []) (sym L.contents-new) Permᴰ.nil, tt)

  -- Along every schedule of a pool of `n` workers, the jobs added are, in some order, those started
  -- and those still in the queue, and each that was started was past its adjusted time by then.
  pub run-conserves :
      (n : ℕ) (es : List (Event C)) (q : Pool C Q)
      → run H (start H n) es ≡ ok q
      → Permᴰ q.enqueued (events q.started ++ H.contents q.time_q) × All IsDue q.started
  run-conserves n es q h =
      run-keeps H Conserved (λ p r e s. Effect-Conserved p r (step-Effect H p r e s)) es (start H n)
        q h (start-Conserved n)
