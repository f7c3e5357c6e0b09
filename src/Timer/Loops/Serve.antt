-- ===== src/Timer/Loops/Serve.antt =====
-- boost/timer.cpp: the loop that runs the jobs of a queue in one thread.
use learning_c.Common.{
  ℕ, zero, suc, ◌+◌, ◌≤◌, ◌≡◌, refl, sym, subst, true, false, none, some, List, [], ◌∷◌, ◌++◌,
  length, All, arith, Option-cases, Bool-cases, inl, inr, ok, ℤ, pos, negsuc, ◌+ℤ◌, negate, ltbℤ,
}
use mathlib.Core.List.{Permᴰ}
use mathlib.Core.List.Permᴰ
use learning_c.PriorityQueue.{PriorityQueue, IsPriorityQueue, All-Permᴰ, length-Permᴰ}
use learning_c.Timer.{TimeEvent, less, seconds}
use learning_c.Timer.Loops.{Ran, serve}

-- After the sleep the job is due.
sleep_enough :
    (clock delay : ℕ) (time : ℤ)
    → ltbℤ (pos (clock + seconds (time +ℤ negate (pos clock)) + delay)) time ≡ false
sleep_enough clock delay (negsuc n) = refl
sleep_enough zero delay (pos n) = ground arith
sleep_enough (suc clock) delay (pos n) = ground arith

module _ {C : Type 0} where
  abbrev pub jobs : List (Ran C) → List (TimeEvent C)
  jobs [] = []
  jobs (r ∷ rs) = r.0 ∷ jobs rs

  -- The job ran when its time had come.
  abbrev pub OnTime : Ran C → Type 0
  OnTime (e, clock) = ltbℤ (pos clock) e.time ≡ false

  -- the last one first: no job ran after one of a later time
  abbrev pub Latest : List (Ran C) → Type 0
  Latest [] = Unit
  Latest (r ∷ rs) = All (λ s. less s.0 r.0 ≡ false) rs × Latest rs

All-map {ℓ κ μ} :
    {A : Type ℓ} (P : A → Type κ) (R : A → Type μ) (xs : List A)
    → ((x : A) → P x → R x)
    → All P xs
    → All R xs
All-map P R [] f h = tt
All-map P R (x ∷ xs) f h = (f x h.0, All-map P R xs f h.1)

module _ {C Q : Type 0} (H : PriorityQueue (TimeEvent C) Q) (L : IsPriorityQueue less H)
    (late : ℕ → ℕ) where
  -- no job that waits is earlier than one that has run
  abbrev Sound : Q → List (Ran C) → Type 0
  Sound q done =
      All OnTime done × Latest done × All (λ s. All (λ x. less s.0 x ≡ false) (H.contents q)) done

  -- The loop ends, each job ran once, in order of time and not before its time.
  abbrev pub Finishes : ℕ → ℕ → Q → List (Ran C) → Type 0
  Finishes fuel clock q done =
      (result : List (Ran C)) × (serve H late fuel clock q done ≡ ok result)
      × Permᴰ (H.contents q ++ jobs done) (jobs result)
      × All OnTime result
      × Latest result

  Sound-pop :
      (q : Q) (done : List (Ran C)) (e : TimeEvent C) (clock : ℕ)
      → H.top q ≡ some e
      → ltbℤ (pos clock) e.time ≡ false
      → Sound q done
      → Sound (H.pop q) ((e, clock) ∷ done)
  Sound-pop q done e clock top due (on_time, latest, sound) =
      let split : Permᴰ (H.contents q) (e ∷ H.contents (H.pop q)) =
        Permᴰ.symm (L.contents-pop e q top) in
      let parts : (s : Ran C)
          → All (λ x. less s.0 x ≡ false) (H.contents q)
          → All (λ x. less s.0 x ≡ false) (e ∷ H.contents (H.pop q)) =
        λ s k. All-Permᴰ (λ x. less s.0 x ≡ false) split k in
      let first : All (λ x. less e x ≡ false) (e ∷ H.contents (H.pop q)) =
        parts (e, clock) (L.top-some e q top) in
      (
        (due, on_time),
        (
          All-map (λ s. All (λ x. less s.0 x ≡ false) (H.contents q)) (λ s. less s.0 e ≡ false) done
              (λ s k. (parts s k).0) sound,
          latest,
        ),
        (
          first.1,
          All-map (λ s. All (λ x. less s.0 x ≡ false) (H.contents q))
              (λ s. All (λ x. less s.0 x ≡ false) (H.contents (H.pop q))) done
              (λ s k. (parts s k).1) sound,
        ),
      )

  run_now :
      (q : Q) (done : List (Ran C)) (e : TimeEvent C) (fuel clock : ℕ)
      → H.top q ≡ some e
      → ltbℤ (pos clock) e.time ≡ false
      → Finishes fuel (clock + late fuel) (H.pop q) ((e, clock) ∷ done)
      → Finishes (suc fuel) clock q done
  unfolding serve
  run_now q done e fuel clock top due (result, h, perm, good, order) = (
    result,
    ground (arith, top, due, h),
    Permᴰ.trans (Permᴰ.append_right (jobs done) (Permᴰ.symm (L.contents-pop e q top)))
        (Permᴰ.trans (Permᴰ.symm (Permᴰ.middle e (H.contents (H.pop q)) (jobs done))) perm),
    good,
    order,
  )

  run_later :
      (q : Q) (done : List (Ran C)) (e : TimeEvent C) (fuel clock : ℕ)
      → H.top q ≡ some e
      → ltbℤ (pos clock) e.time ≡ true
      → Finishes fuel (clock + seconds (e.time +ℤ negate (pos clock)) + late fuel) q done
      → Finishes (suc fuel) clock q done
  unfolding serve
  run_later q done e fuel clock top early (result, h, perm, good, order) =
      (result, ground (arith, top, early, h), perm, good, order)

  run_none :
      (q : Q) (done : List (Ran C)) (fuel clock : ℕ)
      → H.top q ≡ none
      → Sound q done
      → Finishes (suc fuel) clock q done
  unfolding serve
  run_none q done fuel clock top (on_time, latest, _) = (
    done,
    ground (arith, top),
    subst (λ l. Permᴰ (l ++ jobs done) (jobs done)) (sym (L.top-none q top))
        (Permᴰ.refl (jobs done)),
    on_time,
    latest,
  )

  length-pop :
      (q : Q) (e : TimeEvent C)
      → H.top q ≡ some e
      → suc (length (H.contents (H.pop q))) ≡ length (H.contents q)
  length-pop q e top = length-Permᴰ (L.contents-pop e q top)

  serve_lem :
      (n fuel clock : ℕ) (q : Q) (done : List (Ran C))
      → length (H.contents q) ≡ n
      → suc (n + n) ≤ fuel
      → Sound q done
      → Finishes fuel clock q done
  serve_lem n zero clock q done l enough s = absurd (omega arith)
  serve_lem zero (suc fuel) clock q done l enough s = elim (Option-cases (H.top q)) [
    | inl top ↦ run_none q done fuel clock top s
    | inr (e, top) ↦ absurd (omega (arith, length-pop q e top))
  ]
  serve_lem (suc n) (suc zero) clock q done l enough s = absurd (omega arith)
  serve_lem (suc n) (suc (suc fuel)) clock q done l enough s = elim (Option-cases (H.top q)) [
    | inl top ↦ run_none q done (suc fuel) clock top s
    | inr (e, top) ↦
        let size : length (H.contents (H.pop q)) ≡ n = omega (arith, length-pop q e top) in
        elim (Bool-cases (ltbℤ (pos clock) e.time)) [
          | inl early ↦
              let due = sleep_enough clock (late (suc fuel)) e.time in
              run_later q done e (suc fuel) clock top early (
                run_now q done e fuel _ top due (
                  serve_lem n fuel _ (H.pop q) _ size (omega arith)
                    (Sound-pop q done e _ top due s)))
          | inr due ↦ run_now q done e (suc fuel) clock top due (
              serve_lem n (suc fuel) _ (H.pop q) _ size (omega arith)
                (Sound-pop q done e clock top due s))
        ]
  ]

  -- Two rounds for each job and one more are enough for the loop of one thread, whatever the clock
  -- and however long callbacks and sleeps take: it ends, it has run exactly the jobs of the queue,
  -- none before its time, and none after a job of a later time.
  pub serve_total :
      (fuel clock : ℕ) (q : Q)
      → suc (length (H.contents q) + length (H.contents q)) ≤ fuel
      → Finishes fuel clock q []
  serve_total fuel clock q enough =
      serve_lem (length (H.contents q)) fuel clock q [] refl enough (tt, tt, tt)
