-- ===== src/TryLock/Apart.antt =====
-- mutex/try_lock.cpp: what the mutex promises while the threads take turns.
use learning_c.Common.{
  ℕ, zero, suc, ◌+◌, ◌≤◌, ◌≡◌, ◌≢◌, inl, inr, refl, sym, subst, Option, none, some, List, [], ◌∷◌,
  All, leb, get_elem?, get_elem?-set_at, arith, Bool-cases, Option-cases,
}
use learning_c.TryLock.{
  Thread, created, finished, trying, sleeping, Program, Event, turn, fail, tick, all_created, start,
  go, refuse, acquire, release, try_lock_for, thread_function, fails, step, run,
}

-- Every acquisition is a second or more before `t`.
abbrev pub Before : ℕ → List (ℕ × ℕ) → Type 0
Before t ls = All (λ a. a.1 + 1000 ≤ t) ls

-- the newest first
abbrev pub Apart : List (ℕ × ℕ) → Type 0
Apart [] = Unit
Apart (a ∷ ls) = Before a.1 ls × Apart ls

Before-later : (s t : ℕ) (ls : List (ℕ × ℕ)) → s ≤ t → Before s ls → Before t ls
Before-later s t [] le h = tt
Before-later s t (a ∷ ls) le h = (omega (arith, le, h.0), Before-later s t ls le h.1)

-- what holds of thread `i` at its place
abbrev pub Fine : Option ℕ → List (ℕ × ℕ) → ℕ → Thread → Type 0
Fine owner acquired i created = Unit
Fine owner acquired i finished = Unit
Fine owner acquired i (trying deadline) = Unit
Fine owner acquired i (sleeping until) = (owner ≡ some i) × Before until acquired

pub record Inv (p : Program) : Type 0 where
  pub free : p.owner ≡ none → Before p.clock p.acquired
  pub apart : Apart p.acquired
  pub threads_fine :
      (i : ℕ) (t : Thread) → get_elem? p.threads i ≡ some t → Fine p.owner p.acquired i t

all_created-place : (n i : ℕ) (t : Thread) → get_elem? (all_created n) i ≡ some t → t ≡ created
all_created-place zero i t h = absurd (ground arith)
all_created-place (suc n) zero t h = ground arith
all_created-place (suc n) (suc i) t h = all_created-place n i t h

start-Inv : (n : ℕ) → Inv (start n)
start-Inv n = record {
  free = λ _. tt;
  apart = tt;
  threads_fine = λ i t h. subst (Fine none [] i) (sym (all_created-place n i t h)) tt;
}

-- A thread moves to a place of which nothing is promised.
go-Inv :
    (p : Program) (i : ℕ) (old new : Thread)
    → get_elem? p.threads i ≡ some old
    → Fine p.owner p.acquired i new
    → Inv p
    → Inv (go p i new)
go-Inv p i old new here fine inv = record {
  free = inv.free;
  apart = inv.apart;
  threads_fine =
      get_elem?-set_at (Fine p.owner p.acquired) p.threads i new here fine
        (λ j t n g. inv.threads_fine j t g);
}

refuse-Inv :
    (p : Program) (i : ℕ) (old : Thread)
    → get_elem? p.threads i ≡ some old
    → Inv p
    → Inv (refuse p i)
refuse-Inv p i old here inv =
    let moved = go-Inv p i old finished here tt inv in
    record { free = moved.free; apart = moved.apart; threads_fine = moved.threads_fine }

-- While nobody owns the mutex, nobody sleeps, so whoever takes it changes nothing for the others.
taken : (ls ms : List (ℕ × ℕ)) (i j : ℕ) (t : Thread) → Fine none ls j t → Fine (some i) ms j t
taken ls ms i j created h = tt
taken ls ms i j finished h = tt
taken ls ms i j (trying deadline) h = tt
taken ls ms i j (sleeping until) h = absurd (ground (arith, h.0))

left : (ls : List (ℕ × ℕ)) (i j : ℕ) (t : Thread) → i ≢ j → Fine (some i) ls j t → Fine none ls j t
left ls i j created n h = tt
left ls i j finished n h = tt
left ls i j (trying deadline) n h = tt
left ls i j (sleeping until) n h = absurd (ground (arith, h.0, n))

acquire-Inv :
    (p : Program) (i : ℕ) (old : Thread)
    → get_elem? p.threads i ≡ some old
    → p.owner ≡ none
    → Inv p
    → Inv (acquire p i)
acquire-Inv p i old here nobody inv =
    let before : Before p.clock p.acquired = inv.free nobody in
    let next : List (ℕ × ℕ) = (suc i, p.clock) ∷ p.acquired in
    record {
      free = λ h. absurd (ground (arith, h));
      apart = (before, inv.apart);
      threads_fine =
          get_elem?-set_at (Fine (some i) next) p.threads i (sleeping (p.clock + 1000)) here
            (
              refl,
              (omega arith, Before-later p.clock (p.clock + 1000) p.acquired (omega arith) before),
            )
            (λ j t n g.
              taken p.acquired next i j t
                (subst (λ o. Fine o p.acquired j t) nobody (inv.threads_fine j t g)));
    }

release-Inv :
    (p : Program) (i until : ℕ)
    → get_elem? p.threads i ≡ some (sleeping until)
    → until ≤ p.clock
    → Inv p
    → Inv (release p i)
release-Inv p i until here over inv =
    let (mine, before) = inv.threads_fine i (sleeping until) here in
    record {
      free = λ _. Before-later until p.clock p.acquired over before;
      apart = inv.apart;
      threads_fine =
          get_elem?-set_at (Fine none p.acquired) p.threads i finished here tt (λ j t n g.
            left p.acquired i j t n
              (subst (λ o. Fine o p.acquired j t) mine (inv.threads_fine j t g)));
    }

try_lock_for-Inv :
    (p : Program) (i deadline : ℕ)
    → get_elem? p.threads i ≡ some (trying deadline)
    → Inv p
    → Inv (try_lock_for p i deadline p.owner)
try_lock_for-Inv p i deadline here inv = elim (Option-cases p.owner) [
  | inl nobody ↦
      let same : acquire p i ≡ try_lock_for p i deadline p.owner = ground (arith, nobody) in
      subst Inv same (acquire-Inv p i (trying deadline) here nobody inv)
  | inr (j, owned) ↦ elim (Bool-cases (leb deadline p.clock)) [
    | inl late ↦
        let same : refuse p i ≡ try_lock_for p i deadline p.owner = ground (arith, owned, late) in
        subst Inv same (refuse-Inv p i (trying deadline) here inv)
    | inr early ↦
        let same : p ≡ try_lock_for p i deadline p.owner = ground (arith, owned, early) in
        subst Inv same inv
  ]
]

sleep-Inv :
    (p : Program) (i until : ℕ)
    → get_elem? p.threads i ≡ some (sleeping until)
    → Inv p
    → Inv (thread_function p i (some (sleeping until)))
sleep-Inv p i until here inv = elim (Bool-cases (leb until p.clock)) [
  | inl over ↦
      let same : release p i ≡ thread_function p i (some (sleeping until)) = ground (arith, over) in
      subst Inv same (release-Inv p i until here (ground (arith, over)) inv)
  | inr early ↦
      let same : p ≡ thread_function p i (some (sleeping until)) = ground (arith, early) in
      subst Inv same inv
]

thread_function-Inv :
    (p : Program) (i : ℕ) (t : Option Thread)
    → get_elem? p.threads i ≡ t
    → Inv p
    → Inv (thread_function p i t)
thread_function-Inv p i none here inv = inv
thread_function-Inv p i (some created) here inv =
    go-Inv p i created (trying (p.clock + 100)) here tt inv
thread_function-Inv p i (some finished) here inv = inv
thread_function-Inv p i (some (trying deadline)) here inv = try_lock_for-Inv p i deadline here inv
thread_function-Inv p i (some (sleeping until)) here inv = sleep-Inv p i until here inv

fails-Inv :
    (p : Program) (i : ℕ) (t : Option Thread)
    → get_elem? p.threads i ≡ t
    → Inv p
    → Inv (fails p i t)
fails-Inv p i none here inv = inv
fails-Inv p i (some created) here inv = inv
fails-Inv p i (some finished) here inv = inv
fails-Inv p i (some (trying deadline)) here inv = refuse-Inv p i (trying deadline) here inv
fails-Inv p i (some (sleeping until)) here inv = inv

step-Inv : (p : Program) (e : Event) → Inv p → Inv (step p e)
unfolding step
step-Inv p (turn i) inv = thread_function-Inv p i (get_elem? p.threads i) refl inv
step-Inv p (fail i) inv = fails-Inv p i (get_elem? p.threads i) refl inv
step-Inv p tick inv = record {
  free = λ h. Before-later p.clock (suc p.clock) p.acquired (omega arith) (inv.free h);
  apart = inv.apart;
  threads_fine = inv.threads_fine;
}

run-Inv : (p : Program) (es : List Event) → Inv p → Inv (run p es)
unfolding run
run-Inv p [] inv = inv
run-Inv p (e ∷ es) inv = run-Inv (step p e) es (step-Inv p e inv)

-- no two threads sleep with the mutex
abbrev pub Alone : List Thread → Type 0
Alone ts =
    (i j u v : ℕ) → get_elem? ts i ≡ some (sleeping u) → get_elem? ts j ≡ some (sleeping v) → i ≡ j

-- Along every schedule of any number of threads, no two of them have the mutex at once, and the
-- times at which the mutex was acquired are a second or more apart.
pub run-Apart :
    (n : ℕ) (es : List Event) → let p = run (start n) es in Alone p.threads × Apart p.acquired
run-Apart n es =
    let inv = run-Inv (start n) es (start-Inv n) in
    (
      λ i j u v hi hj.
          ground (arith, inv.threads_fine i (sleeping u) hi, inv.threads_fine j (sleeping v) hj),
      inv.apart,
    )
