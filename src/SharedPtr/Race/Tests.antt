-- ===== src/SharedPtr/Race/Tests.antt =====
-- _ptr/shared_ptr.cpp: two and three threads that release their pointers to one object.
use learning_c.Common.{ℕ, ◌≡◌, refl, List, [], ◌∷◌, Run, ok, fault, out_of_fuel}
use learning_c.SharedPtr.Race.{Place, lowering, released, State, start, run}
use learning_c.SharedPtr.Race.Twice.{two_left, release_race}

-- the second thread lowers the count between the first one's two accesses, and sees it at 0
abbrev schedule : List ℕ
schedule = 0 ∷ 0 ∷ 1 ∷ 1 ∷ 1 ∷ 1 ∷ []

abbrev result : Run State → State
result (ok s) = s
result fault = start 0
result out_of_fuel = start 0

abbrev ended : State
ended = result (run (start 2) schedule)

abbrev places : List Place
places = lowering ∷ released ∷ lowering ∷ []

release_race_example :
    (run (two_left places) (0 ∷ 2 ∷ 0 ∷ 2 ∷ 0 ∷ 2 ∷ []) ≡ fault)
    × (run (two_left places) (0 ∷ 2 ∷ 2 ∷ 2 ∷ 2 ∷ 0 ∷ []) ≡ fault)
release_race_example = release_race places 0 2 refl refl refl
