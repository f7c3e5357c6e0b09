-- ===== src/Timer/Loops/Fill.antt =====
-- boost/timer.cpp: the times at which the loop of `main` has the logs cleared.
use learning_c.Common.{
  ℕ, ◌+◌, ◌-◌, ◌^◌, ◌≤◌, ◌<◌, ◌≡◌, refl, List, [], ◌∷◌, leb, All, arith, Bool-cases, inl, inr,
  subst, none, some,
}
use learning_c.Timer.{current_time}
use learning_c.Timer.Loops.{Readings, fill, clear_times}

-- A later call reads no smaller a time, and the start stays as the first call set it.
pub current_time_mono :
    (first second third fourth : ℕ)
    → first ≤ second
    → second ≤ fourth
    → ((current_time none first second).0 ≤ (current_time (some first) third fourth).0)
      × ((current_time none first second).1 ≡ (current_time (some first) third fourth).1)
unfolding current_time
current_time_mono first second third fourth h k = (omega arith, refl)

-- The clock does not run backwards, and stays at or below a limit.
abbrev pub Rising : ℕ → ℕ → List Readings → Type 0
Rising limit now [] = now ≤ limit
Rising limit now (r ∷ rs) =
    (now ≤ r.checked)
    × (r.checked ≤ r.next_from)
    × (r.next_from ≤ r.restarted)
    × Rising limit r.restarted rs

-- Each time is at least the interval after the one before.
abbrev pub Spaced : ℕ → ℕ → List ℕ → Type 0
Spaced interval last [] = Unit
Spaced interval last (t ∷ ts) = (last + interval ≤ t) × Spaced interval t ts

Rising-le : (limit now : ℕ) (rs : List Readings) → Rising limit now rs → now ≤ limit
Rising-le limit now [] h = h
Rising-le limit now (r ∷ rs) (a, b, c, d) =
    let rest : r.restarted ≤ limit = Rising-le limit r.restarted rs d in omega (arith, rest)

Rising-from :
    (limit now later : ℕ) (rs : List Readings)
    → now ≤ later
    → Rising limit later rs
    → Rising limit now rs
Rising-from limit now later [] h k = omega arith
Rising-from limit now later (r ∷ rs) h (a, b, c, d) = (omega arith, b, c, d)

-- The times fit an `int`, when the clock and the interval do.
abbrev pub Fits : List ℕ → Type 0
Fits ts = All (λ t. t < 2 ^ 31) ts

fill_lem :
    (interval limit now last : ℕ) (rs : List Readings)
    → Rising limit now rs
    → last ≤ now + interval
    → limit + interval < 2 ^ 31
    → Spaced interval last (fill interval now rs) × Fits (fill interval now rs)
unfolding fill
fill_lem interval limit now last [] h k l = (tt, tt)
fill_lem interval limit now last (r ∷ rs) (a, b, c, d) k l =
    elim (Bool-cases (leb interval (r.checked - now))) [
      | inl y ↦
          let (s, f) =
            fill_lem interval limit r.restarted (r.next_from + interval) rs d (omega arith) l in
          let below : r.restarted ≤ limit = Rising-le limit r.restarted rs d in
          let apart : last + interval ≤ r.next_from + interval = ground arith in
          let fits : r.next_from + interval < 2 ^ 31 = ground arith in
          let same : ((r.next_from + interval) ∷ fill interval r.restarted rs)
              ≡ fill interval now (r ∷ rs) =
            ground (arith, y) in
          subst (λ ts. Spaced interval last ts × Fits ts) same ((apart, s), (fits, f))
      | inr n ↦
          let same : fill interval now rs ≡ fill interval now (r ∷ rs) = ground (arith, n) in
          let earlier : now ≤ r.restarted = omega arith in
          subst (λ ts. Spaced interval last ts × Fits ts) same
            (fill_lem interval limit now last rs (Rising-from limit now r.restarted rs earlier d) k
              l)
    ]

-- While the clock of `main` runs forward, stays at or below `limit`, and `limit + interval` fits an
-- `int`: each job's time is at least the interval after the one before it, the first after the
-- start, and none overflows an `int`.
pub clear_times-Spaced :
    (interval limit now : ℕ) (rs : List Readings)
    → Rising limit now rs
    → limit + interval < 2 ^ 31
    → Spaced interval now (clear_times interval now rs) × Fits (clear_times interval now rs)
unfolding clear_times
clear_times-Spaced interval limit now rs h l =
    let (s, f) = fill_lem interval limit now (now + interval) rs h (omega arith) l in
    let below : now ≤ limit = Rising-le limit now rs h in
    let first : now + interval < 2 ^ 31 = ground arith in
    let apart : now + interval ≤ now + interval = omega arith in ((apart, s), (first, f))
