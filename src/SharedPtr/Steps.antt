-- ===== src/SharedPtr/Steps.antt =====
-- _ptr/shared_ptr.cpp: `release` and the increment of the count, under the invariant.
use learning_c.Common.{
  ℕ, zero, suc, ◌+◌, ◌<◌, ◌≡◌, refl, subst, inl, inr, Option, none, some, List, ◌==◌, if◌then◌else◌,
  get_elem?, get_elem?-set, get_elem?-lt, set, update, arith, Bool-cases, Option-cases, pos, ok,
}
use learning_c.SharedPtr.{SharedPtr, Heap, World, release, retain}
use learning_c.SharedPtr.Inv.{share, owners, owners-set, share-le-owners, IsPointer, Inv}

module _ {A : Type 0} (target : ℕ → Option ℕ) (w : World A) (inv : Inv target w) (i : ℕ)
    (s : SharedPtr) (here : get_elem? w.vars i ≡ some (some s)) where
  open inv use {counted, pointers, apart, alive, held, raw}

  abbrev left : List (Option SharedPtr)
  left = set w.vars i none

  fewer : (d : ℕ) → owners d left + share d (some s) ≡ owners d w.vars
  fewer d = omega (arith, owners-set d w.vars i (some s) none here)

  -- The variables that stay are those from before.
  others : (j : ℕ) (r : SharedPtr) → get_elem? left j ≡ some (some r) → IsPointer target r
  others j r e =
      pointers j r (ground (arith, get_elem?-set w.vars i j none (get_elem?-lt w.vars i here)))

  module _ (c : ℕ) (at : s.ptr ≡ target c) (counter : s.ref_count ≡ some c) where
    one_less : (d : ℕ) → owners d left + (if d == c then 1 else 0) ≡ owners d w.vars
    one_less d = ground (arith, fewer d)

    abbrev freed : (ℕ → Option A) → World A
    freed objects = record w {
      heap = record {
        objects = objects;
        counts = update (update w.heap.counts c (some (pos 0))) c none;
      };
      vars = left;
    }

    -- The last owner takes the object and the count with it.
    last-Inv :
        (p : ℕ)
        → target c ≡ some p
        → owners c w.vars ≡ 1
        → Inv target (freed (update w.heap.objects p none))
    last-Inv p is one = record {
      counted = λ d. ground (arith, one_less d, counted d);
      pointers = others;
      apart = λ d e q pd pe. apart d e q (omega (arith, one_less d)) (omega (arith, one_less e));
      alive = λ d q pd at_q.
          let (a, e) = alive d q (omega (arith, one_less d)) at_q in
          (a, ground (arith, one_less d, e, apart c d q, is, at_q, one));
      held = λ q a e. elim (held q a (ground arith)) [
        | inl r ↦ inl r
        | inr (d, pd, same) ↦ inr (d, ground (arith, one_less d, is, same, e), same)
      ];
      raw = λ q r.
          let ((a, e), apart_from) = raw q r in
          (
            (a, ground (arith, e, apart_from c, is, one)),
            λ d pd. apart_from d (omega (arith, one_less d)),
          );
    }

    -- where there is no object, only the count goes
    last_null-Inv : target c ≡ none → owners c w.vars ≡ 1 → Inv target (freed w.heap.objects)
    last_null-Inv is one = record {
      counted = λ d. ground (arith, one_less d, counted d);
      pointers = others;
      apart = λ d e q pd pe. apart d e q (omega (arith, one_less d)) (omega (arith, one_less e));
      alive = λ d q pd. alive d q (omega (arith, one_less d));
      held = λ q a e. elim (held q a e) [
        | inl r ↦ inl r
        | inr (d, pd, same) ↦ inr (d, ground (arith, one_less d, is, same), same)
      ];
      raw = λ q r.
          let (there, apart_from) = raw q r in
          (there, λ d pd. apart_from d (omega (arith, one_less d)));
    }

    abbrev lowered : ℕ → World A
    lowered k = record w {
      heap = record { objects = w.heap.objects; counts = update w.heap.counts c (some (pos k)) };
      vars = left;
    }

    -- Otherwise the count falls by one and the object stays.
    shared-Inv : (k : ℕ) → owners c w.vars ≡ suc (suc k) → Inv target (lowered (suc k))
    shared-Inv k more = record {
      counted = λ d. ground (arith, one_less d, counted d);
      pointers = others;
      apart = λ d e q pd pe. apart d e q (omega (arith, one_less d)) (omega (arith, one_less e));
      alive = λ d q pd. alive d q (omega (arith, one_less d));
      held = λ q a e. elim (held q a e) [
        | inl r ↦ inl r
        | inr (d, pd, same) ↦ inr (d, ground (arith, one_less d), same)
      ];
      raw = λ q r.
          let (there, apart_from) = raw q r in
          (there, λ d pd. apart_from d (omega (arith, one_less d)));
    }

    Drops : ℕ → Type 0
    Drops n =
        (h : Heap A) × (release s w.heap ≡ ok h) × Inv target (record w { heap = h; vars = left })

    drop_counted : (n : ℕ) → owners c w.vars ≡ n → 0 < n → Drops n
    unfolding Drops release
    drop_counted zero e pos_n = absurd (omega arith)
    drop_counted (suc zero) e pos_n = elim (Option-cases (target c)) [
      | inl is ↦ ((freed w.heap.objects).heap, ground (arith, counted c, is), last_null-Inv is e)
      | inr (p, is) ↦
          let (a, live) = alive c p (omega arith) is in
          (
            (freed (update w.heap.objects p none)).heap,
            ground (arith, counted c, is, live),
            last-Inv p is e,
          )
    ]
    drop_counted (suc (suc k)) e pos_n =
        ((lowered (suc k)).heap, ground (arith, counted c), shared-Inv k e)

  -- `release` on a variable in scope returns, and without the variable the invariant holds.
  pub release_total :
      (h : Heap A) × (release s w.heap ≡ ok h) × Inv target (record w { heap = h; vars = left })
  unfolding Drops release
  release_total = elim (pointers i s here) [
    | inl (no_ptr, no_count) ↦ (
      w.heap,
      ground arith,
      record {
        counted = λ d. ground (arith, fewer d, counted d);
        pointers = others;
        apart = λ d e q pd pe. apart d e q (ground (arith, fewer d)) (ground (arith, fewer e));
        alive = λ d q pd. alive d q (ground (arith, fewer d));
        held = λ q a e. elim (held q a e) [
          | inl r ↦ inl r
          | inr (d, pd, same) ↦ inr (d, ground (arith, fewer d), same)
        ];
        raw = λ q r.
            let (there, apart_from) = raw q r in
            (there, λ d pd. apart_from d (ground (arith, fewer d)));
      },
    )
    | inr (c, at, counter) ↦
        drop_counted c at counter (owners c w.vars) refl
          (ground (arith, share-le-owners c w.vars i (some s) here))
  ]

module _ {A : Type 0} (target : ℕ → Option ℕ) (w : World A) (inv : Inv target w) (i : ℕ)
    (free : get_elem? w.vars i ≡ some none) where
  open inv use {counted, pointers, apart, alive, held, raw}

  module _ (j : ℕ) (s : SharedPtr) (there : get_elem? w.vars j ≡ some (some s)) where
    abbrev joined : List (Option SharedPtr)
    joined = set w.vars i (some s)

    more : (d : ℕ) → owners d joined ≡ owners d w.vars + share d (some s)
    more d = omega (arith, owners-set d w.vars i none (some s) free)

    all_pointers : (k : ℕ) (r : SharedPtr) → get_elem? joined k ≡ some (some r) → IsPointer target r
    all_pointers k r e = elim (Bool-cases (i == k)) [
      | inl same ↦
          let one : s ≡ r =
            ground (arith, get_elem?-set w.vars i k (some s) (get_elem?-lt w.vars i free)) in
          subst (IsPointer target) one (pointers j s there)
      | inr other ↦
          pointers k r
            (ground (arith, get_elem?-set w.vars i k (some s) (get_elem?-lt w.vars i free)))
    ]

    -- `retain` on a copy of a variable in scope returns, and with the copy the invariant holds.
    pub retain_total :
        (h : Heap A) × (retain s w.heap ≡ ok h) × Inv target (record w { heap = h; vars = joined })
    unfolding retain
    retain_total = elim (pointers j s there) [
      | inl (no_ptr, no_count) ↦ (
        w.heap,
        ground arith,
        record {
          counted = λ d. ground (arith, more d, counted d);
          pointers = all_pointers;
          apart = λ d e q pd pe. apart d e q (ground (arith, more d)) (ground (arith, more e));
          alive = λ d q pd. alive d q (ground (arith, more d));
          held = λ q a e. elim (held q a e) [
            | inl r ↦ inl r
            | inr (d, pd, same) ↦ inr (d, ground (arith, more d), same)
          ];
          raw = λ q r.
              let (there, apart_from) = raw q r in
              (there, λ d pd. apart_from d (ground (arith, more d)));
        },
      )
      | inr (c, at, counter) ↦
          let some_owner : 0 < owners c w.vars =
            ground (arith, share-le-owners c w.vars j (some s) there) in
          let one_more = λ (d : ℕ).
            let sum : owners d joined ≡ owners d w.vars + (if d == c then 1 else 0) =
              ground (arith, more d) in
            sum in
          let raised = some (pos (suc (owners c w.vars))) in
          (
            record { objects = w.heap.objects; counts = update w.heap.counts c raised },
            ground (arith, counted c),
            record {
              counted = λ d. ground (arith, one_more d, counted d);
              pointers = all_pointers;
              apart = λ d e q pd pe.
                  apart d e q (ground (arith, one_more d)) (ground (arith, one_more e));
              alive = λ d q pd. alive d q (ground (arith, one_more d));
              held = λ q a e. elim (held q a e) [
                | inl r ↦ inl r
                | inr (d, pd, same) ↦ inr (d, ground (arith, one_more d), same)
              ];
              raw = λ q r.
                  let (there, apart_from) = raw q r in
                  (there, λ d pd. apart_from d (ground (arith, one_more d)));
            },
          )
    ]
