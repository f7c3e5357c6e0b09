-- ===== src/SharedPtr/Race/Freed.antt =====
-- _ptr/shared_ptr.cpp: what is freed when threads release their pointers at once.
use learning_c.Common.{
  ℕ, zero, suc, ◌≤◌, ◌≡◌, refl, ap, sym, subst, ◌∙◌, false, none, some, List, [], ◌∷◌, ◌⊎◌, inl,
  inr, get_elem?, set, ok, >>=-eq-ok, pos, arith, All, Option-cases, Bool-cases, ◌==◌, sum_by,
  sum_by-set, le-sum_by,
}
use learning_c.SharedPtr.Race.{
  Place, lowering, testing, deleting_object, deleting_count, released, State, start, go, next, step,
  run, all_lowering,
}

-- how many threads are at a place
abbrev lower_one : Place → ℕ
lower_one lowering = 1
lower_one testing = 0
lower_one deleting_object = 0
lower_one deleting_count = 0
lower_one released = 0

abbrev delete_one : Place → ℕ
delete_one lowering = 0
delete_one testing = 1
delete_one deleting_object = 1
delete_one deleting_count = 0
delete_one released = 0

abbrev count_one : Place → ℕ
count_one lowering = 0
count_one testing = 0
count_one deleting_object = 0
count_one deleting_count = 1
count_one released = 0

-- The count, while it is there, is the number of those who have not lowered it; when all have, a
-- thread will still delete what has not been deleted.
record Inv (s : State) : Type 0 where
  counted : (s.count ≡ some (pos (sum_by lower_one s.threads))) ⊎ (s.count ≡ none)
  gone : 1 ≤ sum_by count_one s.threads → s.object ≡ false
  pending :
      sum_by lower_one s.threads ≡ 0
      → (1 ≤ sum_by delete_one s.threads)
        ⊎ ((s.object ≡ false) × ((1 ≤ sum_by count_one s.threads) ⊎ (s.count ≡ none)))

next-Inv :
    (s t : State) (i : ℕ) (p : Place)
    → get_elem? s.threads i ≡ some p
    → next s i (some p) ≡ ok t
    → Inv s
    → Inv t
unfolding next
next-Inv s t i lowering here h inv = elim inv.counted [
  | inr freed ↦ absurd (ground (arith, freed))
  | inl there ↦
      let lower = sum_by-set lower_one s.threads i lowering testing here in
      let mine = le-sum_by lower_one s.threads i lowering here in
      let same : record (go s i testing) {
        count = some (pos (sum_by lower_one (set s.threads i testing)));
      }
          ≡ t =
        ground (arith, there, lower, mine) in
      subst Inv same (record {
        counted = inl refl;
        gone =
            λ k. inv.gone (omega (arith, sum_by-set count_one s.threads i lowering testing here));
        pending = λ z. inl (omega (arith, sum_by-set delete_one s.threads i lowering testing here));
      })
]
next-Inv s t i testing here h inv = elim inv.counted [
  | inr freed ↦ absurd (ground (arith, freed))
  | inl there ↦ elim (Bool-cases (sum_by lower_one s.threads == 0)) [
    | inl last ↦
        let same : go s i deleting_object ≡ t = ground (arith, there, last) in
        subst Inv same (record {
          counted = inl (
              ground (arith, there, sum_by-set lower_one s.threads i testing deleting_object here));
          gone = λ k.
              inv.gone
                (omega (arith, sum_by-set count_one s.threads i testing deleting_object here));
          pending = λ z. inl (
              omega (
                arith,
                sum_by-set delete_one s.threads i testing deleting_object here,
                le-sum_by delete_one s.threads i testing here,
              ));
        })
    | inr more ↦
        let same : go s i released ≡ t = ground (arith, there, more) in
        let lower = sum_by-set lower_one s.threads i testing released here in
        subst Inv same (record {
          counted = inl (ground (arith, there, lower));
          gone =
              λ k. inv.gone (omega (arith, sum_by-set count_one s.threads i testing released here));
          pending = λ z. absurd (ground (arith, lower, more));
        })
  ]
]
next-Inv s t i deleting_object here h inv =
    let counts = sum_by-set count_one s.threads i deleting_object deleting_count here in
    let lower = sum_by-set lower_one s.threads i deleting_object deleting_count here in
    let same : record (go s i deleting_count) { object = false } ≡ t = ground arith in
    let equal : sum_by lower_one (set s.threads i deleting_count) ≡ sum_by lower_one s.threads =
      omega (arith, lower) in
    subst Inv same (record {
      counted = elim inv.counted [
        | inl there ↦ inl (there ∙ ap (λ n. some (pos n)) (sym equal))
        | inr freed ↦ inr freed
      ];
      gone = λ k. refl;
      pending = λ z. inr (refl, inl (omega (arith, counts)));
    })
next-Inv s t i deleting_count here h inv = elim inv.counted [
  | inr freed ↦ absurd (ground (arith, freed))
  | inl there ↦
      let same : record (go s i released) { count = none } ≡ t = ground (arith, there) in
      let dead : s.object ≡ false =
        inv.gone (omega (arith, le-sum_by count_one s.threads i deleting_count here)) in
      subst Inv same
        (record { counted = inr refl; gone = λ k. dead; pending = λ z. inr (dead, inr refl) })
]
next-Inv s t i released here h inv = let same : s ≡ t = ground arith in subst Inv same inv

step-Inv : (s t : State) (i : ℕ) → step s i ≡ ok t → Inv s → Inv t
unfolding step next
step-Inv s t i h inv = elim (Option-cases (get_elem? s.threads i)) [
  | inl n ↦ let same : s ≡ t = ground (arith, n) in subst Inv same inv
  | inr (p, here) ↦ next-Inv s t i p here (sym (ap (next s i) here) ∙ h) inv
]

run-Inv : (is : List ℕ) (s t : State) → run s is ≡ ok t → Inv s → Inv t
unfolding run
run-Inv [] s t h inv = let same : s ≡ t = ground arith in subst Inv same inv
run-Inv (i ∷ is) s t h inv =
    let (u, first, rest) = >>=-eq-ok (step s i) (λ u. run u is) h in
    run-Inv is u t rest (step-Inv s u i first inv)

sum_by-all_lowering :
    (n : ℕ) → (sum_by lower_one (all_lowering n) ≡ n) × (sum_by count_one (all_lowering n) ≡ 0)
sum_by-all_lowering zero = (refl, refl)
sum_by-all_lowering (suc n) =
    let (a, b) = sum_by-all_lowering n in (omega (arith, a), omega (arith, b))

start-Inv : (n : ℕ) → Inv (start (suc n))
start-Inv n =
    let (a, b) = sum_by-all_lowering (suc n) in
    record {
      counted = inl (ap (λ k. some (pos k)) (sym a));
      gone = λ k. absurd (omega (arith, b));
      pending = λ z. absurd (omega (arith, a));
    }

sum_by-released :
    (weight : Place → ℕ) (ps : List Place)
    → weight released ≡ 0
    → All (λ p. p ≡ released) ps
    → sum_by weight ps ≡ 0
sum_by-released weight [] z h = refl
sum_by-released weight (p ∷ ps) z h =
    let first : weight p ≡ 0 = ap weight h.0 ∙ z in
    omega (arith, first, sum_by-released weight ps z h.1)

-- However the steps of one thread or more follow one another while they release their pointers to
-- one object: if nothing is read or deleted after it was freed, and every thread has released its
-- pointer, the object and the count have been deleted.
pub race_no_leak :
    (n : ℕ) (is : List ℕ) (t : State)
    → run (start (suc n)) is ≡ ok t
    → All (λ p. p ≡ released) t.threads
    → (t.object ≡ false) × (t.count ≡ none)
race_no_leak n is t h out =
    let inv = run-Inv is (start (suc n)) t h (start-Inv n) in
    let none_deletes = sum_by-released delete_one t.threads refl out in
    let none_counts = sum_by-released count_one t.threads refl out in
    elim (inv.pending (sum_by-released lower_one t.threads refl out)) [
      | inl left ↦ absurd (omega (arith, none_deletes))
      | inr (dead, inl left) ↦ absurd (omega (arith, none_counts))
      | inr (dead, inr freed) ↦ (dead, freed)
    ]
