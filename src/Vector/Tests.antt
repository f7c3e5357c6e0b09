-- ===== src/Vector/Tests.antt =====
-- vector/vector_.cpp: three elements are added to an empty vector and one is taken; a copy throws.
use learning_c.Common.{
  ℕ, ◌≡◌, refl, Bool, true, false, none, some, [], ◌∷◌, ◌++◌, ok, fault, ◌>>=◌, ◌==◌,
}
use learning_c.Vector.{
  Vector, done, element_threw, copy_threw, create, move_from, reallocate, emplace_back,
  destroy_from,
}
use learning_c.Vector.Refine.{Holds, Ends, emplace_back_total}

abbrev never : ℕ → Bool
never i = false

abbrev two : Vector ℕ
two = record { memory = some 10 ∷ some 20 ∷ []; size = 2; capacity = 2 }

abbrev three : Vector ℕ
three = record { memory = some 10 ∷ some 20 ∷ some 30 ∷ none ∷ []; size = 3; capacity = 4 }

two_built :
    (emplace_back never false create 10 >>= λ o. elim o [
      | done v ↦ emplace_back never false v 20
      | element_threw v ↦ fault
      | copy_threw v freed ↦ fault
    ])
    ≡ ok (done two)
unfolding emplace_back reallocate move_from destroy_from
two_built = refl

three_built : emplace_back never false two 30 ≡ ok (done three)
unfolding emplace_back reallocate move_from destroy_from
three_built = refl

throws_at_second :
    emplace_back (λ i. i == 1) false two 30 ≡ ok (copy_threw two (none ∷ none ∷ none ∷ none ∷ []))
unfolding emplace_back reallocate move_from destroy_from
throws_at_second = refl

-- the element throws after the memory has grown
throws_at_element :
    emplace_back never true two 30
    ≡ ok (
        element_threw
          (record { memory = some 10 ∷ some 20 ∷ none ∷ none ∷ []; size = 2; capacity = 4 }))
unfolding emplace_back reallocate move_from destroy_from
throws_at_element = refl

two-Holds : Holds two (10 ∷ 20 ∷ [])
two-Holds = record { spare = 0; slots = refl; count = refl; room = refl }

three-Holds : Holds three ((10 ∷ 20 ∷ []) ++ 30 ∷ [])
three-Holds = record { spare = 1; slots = refl; count = refl; room = refl }

emplace_back_total_example : Ends (λ i. i == 1) false two (10 ∷ 20 ∷ []) 30
emplace_back_total_example = emplace_back_total (λ i. i == 1) false two (10 ∷ 20 ∷ []) 30 two-Holds
