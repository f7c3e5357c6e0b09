-- ===== src/TryLock/Tests.antt =====
-- mutex/try_lock.cpp: two threads, of which the second gives up.
use learning_c.Common.{ℕ, zero, suc, ◌≡◌, refl, List, [], ◌∷◌, ◌++◌}
use learning_c.TryLock.{Event, turn, tick, start, step, run}
use learning_c.TryLock.Apart.{Alone, Apart, run-Apart}

abbrev ticks : ℕ → List Event
ticks zero = []
ticks (suc n) = tick ∷ ticks n

-- both ask, the first gets the mutex, and the second asks for 100 milliseconds
abbrev one_refused : List Event
one_refused = turn 0 ∷ turn 1 ∷ turn 0 ∷ turn 1 ∷ ticks 100 ++ turn 1 ∷ turn 0 ∷ []

-- the second asks when the first has slept for its second
abbrev two_acquire : List Event
two_acquire = turn 0 ∷ turn 0 ∷ ticks 1000 ++ turn 0 ∷ turn 1 ∷ turn 1 ∷ []

run-Apart_example :
    Alone (run (start 2) two_acquire).threads × Apart (run (start 2) two_acquire).acquired
run-Apart_example = run-Apart 2 two_acquire

both : (run (start 2) two_acquire).acquired ≡ (2, 1000) ∷ (1, 0) ∷ []
unfolding step run
both = refl

printed :
    ((run (start 2) one_refused).acquired ≡ (1, 0) ∷ [])
    × ((run (start 2) one_refused).refused ≡ (2, 100) ∷ [])
unfolding step run
printed = (refl, refl)
