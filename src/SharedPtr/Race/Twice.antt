-- ===== src/SharedPtr/Race/Twice.antt =====
-- _ptr/shared_ptr.cpp: two threads that release the last two pointers to one object at once.
use learning_c.Common.{
  ℕ, ◌≡◌, ap, ◌∙◌, true, false, none, some, List, [], ◌∷◌, get_elem?, get_elem?-set_here,
  get_elem?-set_other, set, fault, ◌>>=◌, pos, arith, ◌==◌,
}
use learning_c.SharedPtr.Race.{
  Place, lowering, testing, deleting_object, deleting_count, released, State, next, step, run,
}

step_at :
    (s : State) (i : ℕ) (p : Place) (is : List ℕ)
    → get_elem? s.threads i ≡ some p
    → run s (i ∷ is) ≡ (next s i (some p) >>= λ t. run t is)
unfolding run step
step_at s i p is h = ap (λ o. next s i o >>= λ t. run t is) h

-- two pointers are left, of the threads among `ts`
abbrev pub two_left : List Place → State
two_left ts = record { object = true; count = some (pos 2); threads = ts }

module _ (ts : List Place) (i j : ℕ) (apart : (i == j) ≡ false)
    (mine : get_elem? ts i ≡ some lowering) (yours : get_elem? ts j ≡ some lowering) where
  reversed : (j == i) ≡ false
  reversed = ground arith

  -- both have lowered the count, and what they then find
  abbrev both : List Place
  both = set (set ts i testing) j testing

  mine_tests : get_elem? both i ≡ some testing
  mine_tests =
      get_elem?-set_other (set ts i testing) j i testing reversed
      ∙ get_elem?-set_here ts i testing mine

  yours_tests : get_elem? both j ≡ some testing
  yours_tests =
      get_elem?-set_here (set ts i testing) j testing
        (get_elem?-set_other ts i j testing apart ∙ yours)

  abbrev unowned : State
  unowned = record { object = true; count = some (pos 0); threads = both }

  lowered : (is : List ℕ) → run (two_left ts) (i ∷ j ∷ is) ≡ run unowned is
  unfolding next
  lowered is =
      step_at (two_left ts) i lowering (j ∷ is) mine
      ∙ step_at (record { object = true; count = some (pos 1); threads = set ts i testing }) j
          lowering is (get_elem?-set_other ts i j testing apart ∙ yours)

  -- Both find the count at 0, and both delete the object.
  abbrev pub both_delete : List ℕ
  both_delete = i ∷ j ∷ i ∷ j ∷ i ∷ j ∷ []

  -- One finds it at 0 and deletes everything, and the other then reads it.
  abbrev pub reads_freed : List ℕ
  reads_freed = i ∷ j ∷ j ∷ j ∷ j ∷ i ∷ []

  second_delete : run unowned (i ∷ j ∷ i ∷ j ∷ []) ≡ fault
  unfolding next
  second_delete =
      let ps = set both i deleting_object in
      let qs = set ps j deleting_object in
      let rs = set qs i deleting_count in
      let yours_still : get_elem? ps j ≡ some testing =
        get_elem?-set_other both i j deleting_object apart ∙ yours_tests in
      let mine_deletes : get_elem? qs i ≡ some deleting_object =
        get_elem?-set_other ps j i deleting_object reversed
        ∙ get_elem?-set_here both i deleting_object mine_tests in
      let yours_deletes : get_elem? rs j ≡ some deleting_object =
        get_elem?-set_other qs i j deleting_count apart
        ∙ get_elem?-set_here ps j deleting_object yours_still in
      step_at unowned i testing (j ∷ i ∷ j ∷ []) mine_tests
      ∙ step_at (record unowned { threads = ps }) j testing (i ∷ j ∷ []) yours_still
      ∙ step_at (record unowned { threads = qs }) i deleting_object (j ∷ []) mine_deletes
      ∙ step_at (record { object = false; count = some (pos 0); threads = rs }) j deleting_object []
          yours_deletes

  late_read : run unowned (j ∷ j ∷ j ∷ i ∷ []) ≡ fault
  unfolding next
  late_read =
      let ps = set both j deleting_object in
      let qs = set ps j deleting_count in
      let rs = set qs j released in
      let here : get_elem? ps j ≡ some deleting_object =
        get_elem?-set_here both j deleting_object yours_tests in
      let there : get_elem? qs j ≡ some deleting_count =
        get_elem?-set_here ps j deleting_count here in
      let mine_still : get_elem? rs i ≡ some testing =
        get_elem?-set_other qs j i released reversed
        ∙ get_elem?-set_other ps j i deleting_count reversed
        ∙ get_elem?-set_other both j i deleting_object reversed
        ∙ mine_tests in
      step_at unowned j testing (j ∷ j ∷ i ∷ []) yours_tests
      ∙ step_at (record unowned { threads = ps }) j deleting_object (j ∷ i ∷ []) here
      ∙ step_at (record { object = false; count = some (pos 0); threads = qs }) j deleting_count
          (i ∷ []) there
      ∙ step_at (record { object = false; count = none; threads = rs }) i testing [] mine_still

  -- When two different threads are about to release the last two pointers to an object, there is an
  -- order of their steps in which the object is deleted twice, and one in which a thread reads the
  -- count after the other has deleted it.
  pub release_race :
      (run (two_left ts) both_delete ≡ fault) × (run (two_left ts) reads_freed ≡ fault)
  release_race =
      (lowered (i ∷ j ∷ i ∷ j ∷ []) ∙ second_delete, lowered (j ∷ j ∷ j ∷ i ∷ []) ∙ late_read)
