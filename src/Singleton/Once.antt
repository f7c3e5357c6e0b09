-- ===== src/Singleton/Once.antt =====
-- singleton/singleton. cpp: what the threads may rely on between their steps.
use learning_c.Common.{
  ℕ, zero, suc, ◌≡◌, ◌≢◌, ◌⊎◌, inl, inr, refl, sym, ◌∙◌, ap, subst, Option, none, some, List, [],
  ◌∷◌, get_elem?, set, get_elem?-set_at, arith, Option-cases,
}
use learning_c.Singleton.{
  Place, testing, locking, testing_again, creating, unlocking, reading, returned, State,
  all_testing, start, go, next, step, run,
}

-- what holds of a thread at a place
abbrev pub Fine : Option ℕ → Option ℕ → ℕ → Place → Type 0
Fine inst holder i testing = Unit
Fine inst holder i locking = Unit
Fine inst holder i testing_again = holder ≡ some i
Fine inst holder i creating = (holder ≡ some i) × (inst ≡ none)
Fine inst holder i unlocking = (holder ≡ some i) × (inst ≡ some 0)
Fine inst holder i reading = inst ≡ some 0
Fine inst holder i (returned p) = (p ≡ some 0) × (inst ≡ some 0)

pub record Inv (s : State) : Type 0 where
  pub at_most_one :
      (s.instance_ ≡ none) × (s.created ≡ 0) ⊎ ((s.instance_ ≡ some 0) × (s.created ≡ 1))
  pub threads_fine :
      (i : ℕ) (p : Place) → get_elem? s.threads i ≡ some p → Fine s.instance_ s.holder i p

all_testing-place : (n i : ℕ) (p : Place) → get_elem? (all_testing n) i ≡ some p → p ≡ testing
all_testing-place zero i p h = absurd (ground arith)
all_testing-place (suc n) zero p h = ground arith
all_testing-place (suc n) (suc i) p h = all_testing-place n i p h

start-Inv : (n : ℕ) → Inv (start n)
start-Inv n = record {
  at_most_one = inl (refl, refl);
  threads_fine = λ i p h. subst (Fine none none i) (sym (all_testing-place n i p h)) tt;
}

-- One thread moves: it is fine where it goes, and the others stay so.
moved :
    (s : State) (inst holder : Option ℕ) (i : ℕ) (p new : Place)
    → get_elem? s.threads i ≡ some p
    → Fine inst holder i new
    → ((j : ℕ) (q : Place) → i ≢ j → get_elem? s.threads j ≡ some q → Fine inst holder j q)
    → (j : ℕ) (q : Place) → get_elem? (set s.threads i new) j ≡ some q
    → Fine inst holder j q
moved s inst holder i p new here fine others =
    get_elem?-set_at (Fine inst holder) s.threads i new here fine others

take_lock : (inst : Option ℕ) (i j : ℕ) (q : Place) → Fine inst none j q → Fine inst (some i) j q
take_lock inst i j testing h = tt
take_lock inst i j locking h = tt
take_lock inst i j testing_again h = absurd (ground (arith, h))
take_lock inst i j creating h = absurd (ground (arith, h))
take_lock inst i j unlocking h = absurd (ground (arith, h))
take_lock inst i j reading h = h
take_lock inst i j (returned p) h = h

leave_lock :
    (inst : Option ℕ) (i j : ℕ) (q : Place) → i ≢ j → Fine inst (some i) j q → Fine inst none j q
leave_lock inst i j testing n h = tt
leave_lock inst i j locking n h = tt
leave_lock inst i j testing_again n h = absurd (ground (arith, h, n))
leave_lock inst i j creating n h = absurd (ground (arith, h, n))
leave_lock inst i j unlocking n h = absurd (ground (arith, h, n))
leave_lock inst i j reading n h = h
leave_lock inst i j (returned p) n h = h

set_instance : (i j : ℕ) (q : Place) → i ≢ j → Fine none (some i) j q → Fine (some 0) (some i) j q
set_instance i j testing n h = tt
set_instance i j locking n h = tt
set_instance i j testing_again n h = h
set_instance i j creating n h = absurd (ground (arith, h, n))
set_instance i j unlocking n h = absurd (ground (arith, h, n))
set_instance i j reading n h = refl
set_instance i j (returned p) n h = (h.0, refl)

-- A step that changes nothing that is shared.
move_on :
    (s : State) (i : ℕ) (p new : Place)
    → get_elem? s.threads i ≡ some p
    → Inv s
    → Fine s.instance_ s.holder i new
    → Inv (go s i new)
move_on s i p new here inv fine = record {
  at_most_one = inv.at_most_one;
  threads_fine = moved s s.instance_ s.holder i p new here fine (λ j q n g. inv.threads_fine j q g);
}

next-Inv :
    (s t : State) (i : ℕ) (o : Option Place)
    → get_elem? s.threads i ≡ o
    → next s i o ≡ some t
    → Inv s
    → Inv t
next-Inv s t i none here h inv = absurd (ground (arith, h))
next-Inv s t i (some testing) here h inv = elim (Option-cases s.instance_) [
  | inl null ↦
      let same : go s i locking ≡ t = ground (arith, h, null) in
      subst Inv same (move_on s i testing locking here inv tt)
  | inr (p, found) ↦
      let same : go s i reading ≡ t = ground (arith, h, found) in
      subst Inv same (move_on s i testing reading here inv (ground (arith, inv.at_most_one, found)))
]
next-Inv s t i (some locking) here h inv = elim (Option-cases s.holder) [
  | inl free ↦
      let same : record (go s i testing_again) { holder = some i } ≡ t = ground (arith, h, free) in
      subst Inv same (record {
        at_most_one = inv.at_most_one;
        threads_fine = moved s s.instance_ (some i) i locking testing_again here refl (λ j q n g.
            take_lock s.instance_ i j q
              (subst (λ m. Fine s.instance_ m j q) free (inv.threads_fine j q g)));
      })
  | inr (j, held) ↦ absurd (ground (arith, h, held))
]
next-Inv s t i (some testing_again) here h inv =
    let mine : s.holder ≡ some i = inv.threads_fine i testing_again here in
    elim (Option-cases s.instance_) [
      | inl null ↦
          let same : go s i creating ≡ t = ground (arith, h, null) in
          subst Inv same (move_on s i testing_again creating here inv (mine, null))
      | inr (p, found) ↦
          let same : go s i unlocking ≡ t = ground (arith, h, found) in
          subst Inv same (
            move_on s i testing_again unlocking here inv
              (mine, ground (arith, inv.at_most_one, found)))
    ]
next-Inv s t i (some creating) here h inv =
    let (mine, null) = inv.threads_fine i creating here in
    let first : s.created ≡ 0 = ground (arith, inv.at_most_one, null) in
    let same : record (go s i unlocking) { instance_ = some s.created; created = suc s.created }
        ≡ t =
      ground (arith, h) in
    let one : some s.created ≡ some 0 = ap some first in
    subst Inv same (record {
      at_most_one = inr (one, ground (arith, first));
      threads_fine =
          moved s (some s.created) s.holder i creating unlocking here (mine, one)
            (λ j q n g.
              let before = subst (λ m. Fine m s.holder j q) null (inv.threads_fine j q g) in
              let after = set_instance i j q n (subst (λ m. Fine none m j q) mine before) in
              subst (λ m. Fine m s.holder j q) (sym one)
                (subst (λ m. Fine (some 0) m j q) (sym mine) after));
    })
next-Inv s t i (some unlocking) here h inv =
    let (mine, made) = inv.threads_fine i unlocking here in
    let same : record (go s i reading) { holder = none } ≡ t = ground (arith, h) in
    subst Inv same (record {
      at_most_one = inv.at_most_one;
      threads_fine = moved s s.instance_ none i unlocking reading here made (λ j q n g.
          leave_lock s.instance_ i j q n
            (subst (λ m. Fine s.instance_ m j q) mine (inv.threads_fine j q g)));
    })
next-Inv s t i (some reading) here h inv =
    let same : go s i (returned s.instance_) ≡ t = ground (arith, h) in
    subst Inv same (
      move_on s i reading (returned s.instance_) here inv
        (inv.threads_fine i reading here, inv.threads_fine i reading here))
next-Inv s t i (some (returned p)) here h inv = absurd (ground (arith, h))

run-Inv : (is : List ℕ) (s t : State) → run s is ≡ some t → Inv s → Inv t
unfolding run step
run-Inv [] s t h inv = let same : s ≡ t = ground (arith, h) in subst Inv same inv
run-Inv (i ∷ is) s t h inv = elim (Option-cases (step s i)) [
  | inl stuck ↦ absurd (ground (arith, h, stuck))
  | inr (m, e) ↦
      let rest : run m is ≡ some t = ground (arith, h, e) in
      run-Inv is m t rest (next-Inv s m i (get_elem? s.threads i) refl e inv)
]

-- However the steps of the threads in `getInstance` follow one another, if one of them has returned,
-- one object has been made, and what it returned, and any other that has returned, is that object.
pub one_instance :
    (n i j : ℕ) (is : List ℕ) (s : State) (p q : Option ℕ)
    → run (start n) is ≡ some s
    → get_elem? s.threads i ≡ some (returned p)
    → get_elem? s.threads j ≡ some (returned q)
    → (s.created ≡ 1) × (p ≡ some 0) × (q ≡ p)
one_instance n i j is s p q h a b =
    let inv = run-Inv is (start n) s h (start-Inv n) in
    let (first, there) = inv.threads_fine i (returned p) a in
    let (second, _) = inv.threads_fine j (returned q) b in
    let made : s.created ≡ 1 = ground (arith, inv.at_most_one, there) in
    (made, first, second ∙ sym first)
