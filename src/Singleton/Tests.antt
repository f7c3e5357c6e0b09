-- ===== src/Singleton/Tests.antt =====
-- singleton/singleton. cpp: two threads that both find the pointer null at first.
use learning_c.Common.{ℕ, ◌≡◌, refl, Option, none, some, List, [], ◌∷◌}
use learning_c.Singleton.{State, start, step, run}
use learning_c.Singleton.Once.{one_instance}

abbrev after : List ℕ → State
after is = elim (run (start 2) is) [ none ↦ start 0 | some s ↦ s ]

abbrev both : List ℕ
both = 0 ∷ 1 ∷ 0 ∷ 0 ∷ 0 ∷ 0 ∷ 1 ∷ 0 ∷ 1 ∷ 1 ∷ 1 ∷ []

abbrev the_object : Option ℕ
the_object = some 0

one_instance_example :
    ((after both).created ≡ 1) × (the_object ≡ some 0) × (the_object ≡ the_object)
unfolding run step
one_instance_example = one_instance 2 0 1 both (after both) the_object the_object refl refl refl
