-- ===== src/UniquePtr/Tests.antt =====
-- The `main` of _ptr/unique_ptr.cpp, and the theorems there.
use learning_c.Common.{
  ℕ, ◌≡◌, refl, none, some, [], ◌∷◌, get_elem?, arith, All, ok, fault, out_of_fuel, Run,
}
use learning_c.UniquePtr.{
  World, Op, new_object, construct, move_construct, reset, destruct, perform,
}
use learning_c.UniquePtr.Inv.{holders, count, Inv}
use learning_c.UniquePtr.Program.{unique_ptr_total, Runs, begin, then_do}
use learning_c.UniquePtr.Lifetime.{IsStart}

-- variables p1 and p2
abbrev nothing : World ℕ
nothing = record { objects = λ p. none; vars = none ∷ none ∷ []; raws = [] }

abbrev result : Run (World ℕ) → World ℕ
result (ok w) = w
result fault = nothing
result out_of_fuel = nothing

abbrev after : World ℕ → Op ℕ → World ℕ
after w op = result (perform w op)

abbrev owned : World ℕ
owned = after (after nothing (new_object 1 42)) (construct 0 (some 1))

abbrev moved : World ℕ
moved = after owned (move_construct 1 0)

abbrev replaced : World ℕ
replaced = after (after moved (new_object 2 100)) (reset 1 (some 2))

abbrev ended : World ℕ
ended = after (after replaced (destruct 1)) (destruct 0)

run_moved : Runs nothing moved
unfolding perform count
run_moved =
    then_do (move_construct 1 0)
      (then_do (construct 0 (some 1)) (then_do (new_object 1 42) begin refl refl)
        (refl, omega arith) refl)
      (refl, (some 1, refl)) refl

run_ended : Runs nothing ended
unfolding perform count
run_ended =
    then_do (destruct 0)
      (then_do (destruct 1)
        (then_do (reset 1 (some 2)) (then_do (new_object 2 100) run_moved refl refl)
          ((some 1, refl), omega arith) refl)
        (some 2, refl) refl)
      (none, refl) refl

-- After the move `p1` is null and `p2` has the object; after `reset` the old object is gone.
moves_and_resets :
    (moved.vars ≡ some none ∷ some (some 1) ∷ [])
    × (replaced.objects 1 ≡ none)
    × (replaced.objects 2 ≡ some 100)
unfolding perform
moves_and_resets = (refl, refl, refl)

nothing-IsStart : IsStart nothing
nothing-IsStart = record { unused = (refl, (refl, tt)); no_object = λ p. refl; no_raw = refl }

ended_empty : All (λ v. v ≡ none) ended.vars × (ended.raws ≡ [])
unfolding perform
ended_empty = ((refl, (refl, tt)), refl)

nothing-Inv : Inv nothing
unfolding holders count
nothing-Inv p = refl

unique_ptr_total_example : (w : World ℕ) × (perform nothing (new_object 1 42) ≡ ok w) × Inv w
unique_ptr_total_example = unique_ptr_total nothing (new_object 1 42) nothing-Inv refl

owned_facts : (get_elem? owned.vars 0 ≡ some (some (some 1))) × (owned.objects 1 ≡ some 42)
unfolding perform
owned_facts = (refl, refl)
