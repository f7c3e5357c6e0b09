-- ===== src/DeadlockDemo/Owners.antt =====
-- deadlock/deadlock_test.cpp: who holds a mutex, for one thread and the other.
use learning_c.Common.{
  ℕ, ◌≡◌, refl, ap, sym, subst, ◌∙◌, Bool, true, false, ◌&&◌, Option, none, some, ◌⊎◌, inl, inr,
  ◌==◌, set, update, ok, >>=-eq-ok, arith, Bool-cases,
}
use learning_c.Deadlock.Graph.{Pair, TaskGraph}
use learning_c.Deadlock.Locks.{lock_before, lock_after}
use learning_c.DeadlockDemo.{
  Place, calling_first, acquiring_first, recording_first, calling_second, acquiring_second,
  recording_second, unlocking_second, unlocking_first, finished, Thread, State, go, acquire,
  release, act,
}

abbrev pub holds_first : Place → Bool
holds_first calling_first = false
holds_first acquiring_first = false
holds_first recording_first = true
holds_first calling_second = true
holds_first acquiring_second = true
holds_first recording_second = true
holds_first unlocking_second = true
holds_first unlocking_first = true
holds_first finished = false

abbrev pub holds_second : Place → Bool
holds_second calling_first = false
holds_second acquiring_first = false
holds_second recording_first = false
holds_second calling_second = false
holds_second acquiring_second = false
holds_second recording_second = true
holds_second unlocking_second = true
holds_second unlocking_first = false
holds_second finished = false

-- the owner of a mutex that thread `i` or thread `j` may hold
abbrev pub owner : ℕ → ℕ → Bool → Bool → Option ℕ
owner i j true y = some i
owner i j false true = some j
owner i j false false = none

-- Thread `i`, at `p`, takes the mutexes at `l` and `k` in this order, and thread `j`, at `q`, in the
-- other one.
pub record Owners (s : State) (i j l k : ℕ) (p q : Place) : Type 0 where
  pub first_owner : s.owners l ≡ owner i j (holds_first p) (holds_second q)
  pub second_owner : s.owners k ≡ owner i j (holds_second p) (holds_first q)
  pub first_alone : (holds_first p && holds_second q) ≡ false
  pub second_alone : (holds_second p && holds_first q) ≡ false

owner-swap : (i j : ℕ) (x y : Bool) → (x && y) ≡ false → owner i j x y ≡ owner j i y x
owner-swap i j true true h = absurd (ground arith)
owner-swap i j true false h = refl
owner-swap i j false true h = refl
owner-swap i j false false h = refl

and-swap : (x y : Bool) → (x && y) ≡ false → (y && x) ≡ false
and-swap true true h = h
and-swap true false h = refl
and-swap false true h = refl
and-swap false false h = refl

pub Owners-swap :
    (s : State) (i j l k : ℕ) (p q : Place) → Owners s i j l k p q → Owners s j i k l q p
Owners-swap s i j l k p q at = record {
  first_owner = at.second_owner ∙ owner-swap i j (holds_second p) (holds_first q) at.second_alone;
  second_owner = at.first_owner ∙ owner-swap i j (holds_first p) (holds_second q) at.first_alone;
  first_alone = and-swap (holds_second p) (holds_first q) at.second_alone;
  second_alone = and-swap (holds_first p) (holds_second q) at.first_alone;
}

module _ (junk : Pair) (i j id l k : ℕ) (apart : (l == k) ≡ false) where
  abbrev pub thread : Place → Thread
  thread p = record { id = id; first = l; second = k; place = p }

  -- After a step the thread is at `p'`: it has gone there, or it has stayed where it was.
  abbrev pub After : State → State → Place → Place → Type 0
  After s t p q =
      (p' : Place) × Owners t i j l k p' q
      × ((t.threads ≡ set s.threads i (thread p')) ⊎ ((t.threads ≡ s.threads) × (p' ≡ p)))

  goes :
      (s u t : State) (p q p' : Place)
      → Owners u i j l k p' q
      → u.threads ≡ set s.threads i (thread p')
      → u ≡ t
      → After s t p q
  goes s u t p q p' at moved e =
      (p', subst (λ r. Owners r i j l k p' q) e at, inl (ap (λ r. r.threads) (sym e) ∙ moved))

  stays : (s t : State) (p q : Place) → Owners s i j l k p q → s ≡ t → After s t p q
  stays s t p q at e =
      (p, subst (λ r. Owners r i j l k p q) e at, inr (ap (λ r. r.threads) (sym e), refl))

  -- the thread does a step that changes no mutex
  same_owners :
      (s t : State) (p q p' : Place) (g : TaskGraph)
      → Owners s i j l k p q
      → holds_first p' ≡ holds_first p
      → holds_second p' ≡ holds_second p
      → record (go s i (thread p) p') { graph = g } ≡ t
      → After s t p q
  same_owners s t p q p' g at f h e =
      goes s (record (go s i (thread p) p') { graph = g }) t p q p'
        (record {
          first_owner = at.first_owner ∙ ap (λ x. owner i j x (holds_second q)) (sym f);
          second_owner = at.second_owner ∙ ap (λ x. owner i j x (holds_first q)) (sym h);
          first_alone = ap (λ x. x && holds_second q) f ∙ at.first_alone;
          second_alone = ap (λ x. x && holds_first q) h ∙ at.second_alone;
        })
        refl e

  -- the thread takes its first mutex, or waits for it
  take_first :
      (s t : State) (q : Place)
      → Owners s i j l k acquiring_first q
      → acquire s i (thread acquiring_first) l recording_first (s.owners l) ≡ t
      → After s t acquiring_first q
  take_first s t q at e = elim (Bool-cases (holds_second q)) [
    | inl taken ↦ stays s t acquiring_first q at (ground (arith, at.first_owner, taken))
    | inr free ↦
        goes s
          (record (go s i (thread acquiring_first) recording_first) {
            owners = update s.owners l (some i);
          })
          t acquiring_first q recording_first
          (record {
            first_owner = ground arith;
            second_owner = ground (arith, at.second_owner, apart);
            first_alone = free;
            second_alone = refl;
          })
          refl (ground (arith, at.first_owner, free))
  ]

  take_second :
      (s t : State) (q : Place)
      → Owners s i j l k acquiring_second q
      → acquire s i (thread acquiring_second) k recording_second (s.owners k) ≡ t
      → After s t acquiring_second q
  take_second s t q at e = elim (Bool-cases (holds_first q)) [
    | inl taken ↦ stays s t acquiring_second q at (ground (arith, at.second_owner, taken))
    | inr free ↦
        goes s
          (record (go s i (thread acquiring_second) recording_second) {
            owners = update s.owners k (some i);
          })
          t acquiring_second q recording_second
          (record {
            first_owner = ground (arith, at.first_owner, apart);
            second_owner = ground arith;
            first_alone = at.first_alone;
            second_alone = free;
          })
          refl (ground (arith, at.second_owner, free))
  ]

  pub act-Owners :
      (s t : State) (p q : Place)
      → Owners s i j l k p q
      → act junk s i (thread p) p ≡ ok t
      → After s t p q
  act-Owners s t calling_first q at h =
      let (g, _, last) = >>=-eq-ok (lock_before junk s.graph id l) _ h in
      same_owners s t calling_first q acquiring_first g at refl refl (ground arith)
  act-Owners s t acquiring_first q at h = take_first s t q at (ground arith)
  act-Owners s t recording_first q at h =
      let (g, _, last) = >>=-eq-ok (lock_after junk s.graph id l) _ h in
      same_owners s t recording_first q calling_second g at refl refl (ground arith)
  act-Owners s t calling_second q at h =
      let (g, _, last) = >>=-eq-ok (lock_before junk s.graph id k) _ h in
      same_owners s t calling_second q acquiring_second g at refl refl (ground arith)
  act-Owners s t acquiring_second q at h = take_second s t q at (ground arith)
  act-Owners s t recording_second q at h =
      let (g, _, last) = >>=-eq-ok (lock_after junk s.graph id k) _ h in
      same_owners s t recording_second q unlocking_second g at refl refl (ground arith)
  act-Owners s t unlocking_second q at h =
      goes s (release s i (thread unlocking_second) k unlocking_first) t unlocking_second q
        unlocking_first
        (record {
          first_owner = ground (arith, at.first_owner, apart);
          second_owner = ground (arith, at.second_alone);
          first_alone = at.first_alone;
          second_alone = refl;
        })
        refl (ground arith)
  act-Owners s t unlocking_first q at h =
      goes s (release s i (thread unlocking_first) l finished) t unlocking_first q finished
        (record {
          first_owner = ground (arith, at.first_alone);
          second_owner = ground (arith, at.second_owner, apart);
          first_alone = refl;
          second_alone = refl;
        })
        refl (ground arith)
  act-Owners s t finished q at h = stays s t finished q at (ground arith)
