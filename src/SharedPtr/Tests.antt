-- ===== src/SharedPtr/Tests.antt =====
-- The `main` of _ptr/shared_ptr.cpp up to `p3`, and the theorems there.
use learning_c.Common.{
  ℕ, ◌≡◌, refl, ◌⊎◌, none, some, [], ◌∷◌, get_elem?, arith, subst, pos, ok, fault, out_of_fuel, Run,
  true, false,
}
use learning_c.SharedPtr.{
  SharedPtr, World, Op, new_object, construct, copy_construct, move_construct, destruct, use_count,
  deref, perform, release, retain, construct_from, destroy,
}
use learning_c.SharedPtr.Inv.{owners}
use learning_c.SharedPtr.Program.{IsSound, shared_ptr_total}
use learning_c.SharedPtr.Lifetime.{
  IsStart, Runs, begin, then_do, NoneInScope, shared_ptr_no_leak, use_count-owners, start-IsSound,
}

-- variables p1, p2 and p3
abbrev nothing : World ℕ
nothing = record {
  heap = record { objects = λ p. none; counts = λ c. none };
  vars = none ∷ none ∷ none ∷ [];
  raws = λ p. false;
}

abbrev result : Run (World ℕ) → World ℕ
result (ok w) = w
result fault = nothing
result out_of_fuel = nothing

abbrev after : World ℕ → Op ℕ → World ℕ
after w op = result (perform w op)

abbrev made : World ℕ
made = after nothing (new_object 10 42)

abbrev one : World ℕ
one = after made (construct 0 (some 10) 20)

abbrev two : World ℕ
two = after one (copy_construct 1 0)

abbrev back : World ℕ
back = after two (destruct 1)

abbrev moved : World ℕ
moved = after back (move_construct 2 0)

abbrev first : SharedPtr
first = record { ptr = some 10; ref_count = some 20 }

-- what `main` prints: 1, then 2, then 1, then 2 for p1 and for p3
printed_counts :
    (use_count first one.heap ≡ ok (pos 1))
    × (use_count first two.heap ≡ ok (pos 2))
    × (use_count first back.heap ≡ ok (pos 1))
    × (use_count first moved.heap ≡ ok (pos 2))
unfolding perform release retain construct_from destroy
printed_counts = (refl, refl, refl, refl)

abbrev half_way : World ℕ
half_way = after moved (destruct 2)

abbrev ended : World ℕ
ended = after half_way (destruct 0)

nothing-IsStart : IsStart nothing
nothing-IsStart = record {
  unused = (refl, (refl, (refl, tt)));
  no_object = λ p. refl;
  no_count = λ c. refl;
  no_raw = λ p. refl;
}

run_moved : Runs nothing moved
unfolding perform release retain construct_from destroy
run_moved =
    then_do (move_construct 2 0)
      (then_do (destruct 1)
        (then_do (copy_construct 1 0)
          (then_do (construct 0 (some 10) 20) (then_do (new_object 10 42) begin refl refl)
            (refl, refl, refl) refl)
          (refl, (first, refl)) refl)
        (first, refl) refl)
      (refl, (first, refl)) refl

run_ended : Runs nothing ended
unfolding perform release retain construct_from destroy run_moved
run_ended =
    then_do (destruct 0) (then_do (destruct 2) run_moved (first, refl) refl) (first, refl) refl

none_left : NoneInScope ended.vars
unfolding perform release retain construct_from destroy
none_left = (refl, (refl, (refl, tt)))

shared_ptr_no_leak_example :
    ((p : ℕ) → (ended.raws p ≡ true) ⊎ (ended.heap.objects p ≡ none))
    × ((c : ℕ) → ended.heap.counts c ≡ none)
shared_ptr_no_leak_example = shared_ptr_no_leak nothing ended nothing-IsStart run_ended none_left

third_in_scope : get_elem? moved.vars 2 ≡ some (some first)
unfolding perform release retain construct_from destroy
third_in_scope = refl

use_count-owners_example :
    (first.ptr ≡ none) × (first.ref_count ≡ none) × (use_count first moved.heap ≡ ok (pos 0))
    ⊎ ((c : ℕ) × (first.ref_count ≡ some c)
        × (use_count first moved.heap ≡ ok (pos (owners c moved.vars)))
        × ((first.ptr ≡ none) ⊎ ((a : ℕ) × (deref first moved.heap ≡ ok a))))
use_count-owners_example =
    use_count-owners nothing moved 2 first nothing-IsStart run_moved third_in_scope

made-IsSound : IsSound made
unfolding perform
made-IsSound =
    let (w, run, sound) =
      shared_ptr_total nothing (new_object 10 42) (start-IsSound nothing nothing-IsStart) refl in
    subst IsSound (ground arith) sound

made-MayGive : made.raws 10 ≡ true
unfolding perform
made-MayGive = refl

shared_ptr_total_example :
    (w : World ℕ) × (perform made (construct 0 (some 10) 20) ≡ ok w) × IsSound w
unfolding perform
shared_ptr_total_example =
    shared_ptr_total made (construct 0 (some 10) 20) made-IsSound (refl, made-MayGive, refl)

-- A null pointer has a count of its own.
null_counted :
    use_count
      (record { ptr = none; ref_count = some 20 })
      (after nothing (construct 0 none 20)).heap
    ≡ ok (pos 1)
unfolding perform
null_counted = refl
