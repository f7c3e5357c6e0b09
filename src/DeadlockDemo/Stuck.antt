-- ===== src/DeadlockDemo/Stuck.antt =====
-- deadlock/deadlock_test.cpp: that no two threads hold one mutex, and when both threads are stuck.
use learning_c.Common.{
  ℕ, zero, suc, ◌≡◌, refl, ap, sym, subst, ◌∙◌, Bool, true, false, Option, none, some, List, [],
  ◌∷◌, ◌⊎◌, inl, inr, ◌==◌, get_elem?, set, Run, ok, >>=-eq-ok, arith,
}
use learning_c.Deadlock.Graph.{Pair, TaskGraph}
use learning_c.DeadlockDemo.{
  Place, calling_first, acquiring_first, recording_first, calling_second, acquiring_second,
  recording_second, unlocking_second, unlocking_first, finished, Thread, State, act, step, run,
  demo, start,
}
use learning_c.DeadlockDemo.Owners.{Owners, Owners-swap, thread, act-Owners}

-- The mutex is held.
abbrev taken : Option ℕ → Bool
taken none = false
taken (some i) = true

-- A turn of the thread changes nothing: it waits for a mutex that is held, or it has ended.
abbrev pub idle : State → Thread → Place → Bool
idle s t calling_first = false
idle s t acquiring_first = taken (s.owners t.first)
idle s t recording_first = false
idle s t calling_second = false
idle s t acquiring_second = taken (s.owners t.second)
idle s t recording_second = false
idle s t unlocking_second = false
idle s t unlocking_first = false
idle s t finished = true

abbrev pub AllIdle : State → List Thread → Type 0
AllIdle s [] = Unit
AllIdle s (t ∷ ts) = (idle s t t.place ≡ true) × AllIdle s ts

-- where a thread may be idle
data Rests : Place → Type 0 where
  waits_first : Rests acquiring_first
  waits_second : Rests acquiring_second
  ended : Rests finished

idle-Rests : (s : State) (t : Thread) (p : Place) → idle s t p ≡ true → Rests p
idle-Rests s t calling_first h = absurd (ground arith)
idle-Rests s t acquiring_first h = waits_first
idle-Rests s t recording_first h = absurd (ground arith)
idle-Rests s t calling_second h = absurd (ground arith)
idle-Rests s t acquiring_second h = waits_second
idle-Rests s t recording_second h = absurd (ground arith)
idle-Rests s t unlocking_second h = absurd (ground arith)
idle-Rests s t unlocking_first h = absurd (ground arith)
idle-Rests s t finished h = ended

module _ (junk : Pair) (a b m n : ℕ) (apart : (m == n) ≡ false) where
  record Inv (s : State) : Type 0 where
    p : Place
    q : Place
    shape : s.threads ≡ demo a b m n p q
    owners : Owners s 0 1 m n p q

  reversed : (n == m) ≡ false
  reversed = ground arith

  step_zero :
      (s t : State) (inv : Inv s)
      → act junk s 0 (thread junk 0 1 a m n apart inv.p) inv.p ≡ ok t
      → Inv t
  step_zero s t inv h =
      let (p', at, moved) = act-Owners junk 0 1 a m n apart s t inv.p inv.q inv.owners h in
      record {
        p = p';
        q = inv.q;
        shape = elim moved [
          | inl gone ↦ gone ∙ ap (λ ts. set ts 0 (thread junk 0 1 a m n apart p')) inv.shape
          | inr (stayed, here) ↦ stayed ∙ inv.shape ∙ ap (λ x. demo a b m n x inv.q) (sym here)
        ];
        owners = at;
      }

  step_one :
      (s t : State) (inv : Inv s)
      → act junk s 1 (thread junk 1 0 b n m reversed inv.q) inv.q ≡ ok t
      → Inv t
  step_one s t inv h =
      let (q', at, moved) =
        act-Owners junk 1 0 b n m reversed s t inv.q inv.p
          (Owners-swap s 0 1 m n inv.p inv.q inv.owners) h in
      record {
        p = inv.p;
        q = q';
        shape = elim moved [
          | inl gone ↦ gone ∙ ap (λ ts. set ts 1 (thread junk 1 0 b n m reversed q')) inv.shape
          | inr (stayed, here) ↦ stayed ∙ inv.shape ∙ ap (λ x. demo a b m n inv.p x) (sym here)
        ];
        owners = Owners-swap t 1 0 n m q' inv.p at;
      }

  abbrev acts : State → ℕ → Option Thread → Run State
  acts s i o = elim o [ none ↦ ok s | some t ↦ act junk s i t t.place ]

  step-Inv : (s t : State) (i : ℕ) → step junk s i ≡ ok t → Inv s → Inv t
  unfolding step
  step-Inv s t zero h inv =
      step_zero s t inv (sym (ap (λ ts. acts s 0 (get_elem? ts 0)) inv.shape) ∙ h)
  step-Inv s t (suc zero) h inv =
      step_one s t inv (sym (ap (λ ts. acts s 1 (get_elem? ts 1)) inv.shape) ∙ h)
  step-Inv s t (suc (suc i)) h inv =
      let e : ok s ≡ ok t =
        sym (ap (λ ts. acts s (suc (suc i)) (get_elem? ts (suc (suc i)))) inv.shape) ∙ h in
      let same : s ≡ t = ground arith in subst Inv same inv

  run-Inv : (is : List ℕ) (s t : State) → run junk s is ≡ ok t → Inv s → Inv t
  unfolding run
  run-Inv [] s t h inv = let same : s ≡ t = ground arith in subst Inv same inv
  run-Inv (i ∷ is) s t h inv =
      let (u, first, rest) = >>=-eq-ok (step junk s i) (λ u. run junk u is) h in
      run-Inv is u t rest (step-Inv s u i first inv)

  start-Inv : (g : TaskGraph) → Inv (start g a b m n)
  start-Inv g = record {
    p = calling_first;
    q = calling_first;
    shape = refl;
    owners = record {
      first_owner = refl;
      second_owner = refl;
      first_alone = refl;
      second_alone = refl;
    };
  }

  -- both have ended, or each holds its first mutex and waits for the other's
  abbrev pub EndedOrStuck : State → Type 0
  EndedOrStuck s =
      (s.threads ≡ demo a b m n finished finished)
      ⊎ ((s.threads ≡ demo a b m n acquiring_second acquiring_second)
          × (s.owners m ≡ some 0)
          × (s.owners n ≡ some 1))

  ended_or_stuck :
      (s : State) (p q : Place)
      → s.threads ≡ demo a b m n p q
      → Owners s 0 1 m n p q
      → idle s (thread junk 0 1 a m n apart p) p ≡ true
      → idle s (thread junk 1 0 b n m reversed q) q ≡ true
      → Rests p
      → Rests q
      → EndedOrStuck s
  ended_or_stuck s p q shape at i j ended ended = inl shape
  ended_or_stuck s p q shape at i j ended waits_first = absurd (ground (arith, at.second_owner))
  ended_or_stuck s p q shape at i j ended waits_second = absurd (ground (arith, at.first_owner))
  ended_or_stuck s p q shape at i j waits_first ended = absurd (ground (arith, at.first_owner))
  ended_or_stuck s p q shape at i j waits_first waits_first =
      absurd (ground (arith, at.first_owner))
  ended_or_stuck s p q shape at i j waits_first waits_second =
      absurd (ground (arith, at.first_owner))
  ended_or_stuck s p q shape at i j waits_second ended = absurd (ground (arith, at.second_owner))
  ended_or_stuck s p q shape at i j waits_second waits_first =
      absurd (ground (arith, at.second_owner))
  ended_or_stuck s p q shape at i j waits_second waits_second =
      inr (shape, at.first_owner, at.second_owner)

  -- Along every schedule of the two threads over two different mutexes, from any graph: when a turn
  -- of either thread changes nothing any more, both have ended, or each holds its first mutex and
  -- waits for the one that the other holds.
  pub stuck_threads :
      (g : TaskGraph) (is : List ℕ) (s : State)
      → run junk (start g a b m n) is ≡ ok s
      → AllIdle s s.threads
      → EndedOrStuck s
  stuck_threads g is s h idles =
      let inv = run-Inv is (start g a b m n) s h (start-Inv g) in
      let (i, (j, _)) = subst (AllIdle s) inv.shape idles in
      ended_or_stuck s inv.p inv.q inv.shape inv.owners i j
        (idle-Rests s (thread junk 0 1 a m n apart inv.p) inv.p i)
        (idle-Rests s (thread junk 1 0 b n m reversed inv.q) inv.q j)
