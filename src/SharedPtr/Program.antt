-- ===== src/SharedPtr/Program.antt =====
-- _ptr/shared_ptr.cpp: what a program may do, and each operation of one.
use learning_c.Common.{
  ℕ, ◌+◌, ◌<◌, ◌≡◌, ◌≢◌, refl, subst, inl, inr, ◌⊎◌, Bool, Option, none, some, true, ◌==◌,
  if◌then◌else◌, get_elem?, get_elem?-set, get_elem?-lt, set, set-set, update, arith, Bool-cases,
  pos, ok,
}
use learning_c.SharedPtr.{
  SharedPtr, World, Op, construct_default, new_object, construct, given, copy_construct,
  move_construct, copy_assign, move_assign, destruct, empty, put, destroy, construct_from, assign,
  perform,
}
use learning_c.SharedPtr.Inv.{owners, owners-set, share-le-owners, IsPointer, Inv}
use learning_c.SharedPtr.Steps.{release_total, retain_total}

given-true :
    (p : Option ℕ) (raws : ℕ → Bool) (q : ℕ)
    → given p raws q ≡ true
    → (raws q ≡ true) × (p ≢ some q)
given-true none raws q h = (h, λ e. ground arith)
given-true (some p) raws q h = (ground arith, λ e. ground arith)

given-other :
    (p : Option ℕ) (raws : ℕ → Bool) (q : ℕ)
    → raws q ≡ true
    → (given p raws q ≡ true) ⊎ (p ≡ some q)
given-other none raws q h = inl h
given-other (some p) raws q h = elim (Bool-cases (p == q)) [
  | inl y ↦ inr (ground (arith, y))
  | inr n ↦ inl (ground (arith, n, h))
]

module _ {A : Type 0} where
  abbrev pub Holds : World A → ℕ → Type 0
  Holds w i = (s : SharedPtr) × (get_elem? w.vars i ≡ some (some s))

  abbrev pub IsFree : World A → ℕ → Type 0
  IsFree w i = get_elem? w.vars i ≡ some none

  -- The program may give a null pointer, or an object that it holds by itself.
  abbrev pub MayGive : World A → Option ℕ → Type 0
  MayGive w none = Unit
  MayGive w (some p) = w.raws p ≡ true

  -- What the language demands, a variable being constructed once, used and destroyed while it is in
  -- scope, and `new` returning addresses that are not in use; and that an object is given once.
  abbrev pub Allowed : World A → Op A → Type 0
  Allowed w (construct_default i) = IsFree w i
  Allowed w (new_object p a) = w.heap.objects p ≡ none
  Allowed w (construct i p c) = IsFree w i × MayGive w p × (w.heap.counts c ≡ none)
  Allowed w (copy_construct i j) = IsFree w i × Holds w j
  Allowed w (move_construct i j) = IsFree w i × Holds w j
  Allowed w (copy_assign i j) = Holds w i × Holds w j
  Allowed w (move_assign i j) = Holds w i × Holds w j
  Allowed w (destruct i) = Holds w i

  -- Some assignment of objects to counts makes the invariant hold.
  abbrev pub IsSound : World A → Type 0
  IsSound w = (target : ℕ → Option ℕ) × Inv target w

  destroy_total :
      (w : World A) (i : ℕ)
      → IsSound w
      → Holds w i
      → (w' : World A) × (destroy w i ≡ ok w') × IsSound w'
  unfolding destroy
  destroy_total w i (target, inv) (s, here) =
      let (h, run, kept) = release_total target w inv i s here in
      (record w { heap = h; vars = set w.vars i none }, rw (here, run) refl, (target, kept))

  construct_from_total :
      (w : World A) (i j : ℕ)
      → IsSound w
      → IsFree w i
      → Holds w j
      → (w' : World A) × (construct_from w i j ≡ ok w') × IsSound w'
  unfolding construct_from
  construct_from_total w i j (target, inv) free (s, there) =
      let (h, run, kept) = retain_total target w inv i free j s there in
      (record w { heap = h; vars = set w.vars i (some s) }, rw (there, run) refl, (target, kept))

  assign_total :
      (w : World A) (i j : ℕ)
      → IsSound w
      → Holds w i
      → Holds w j
      → (w' : World A) × (assign w i j ≡ ok w') × IsSound w'
  unfolding assign
  assign_total w i j (target, inv) (s, here) (r, there) = elim (Bool-cases (i == j)) [
    | inl same ↦ (w, ground arith, (target, inv))
    | inr other ↦
        let (h, run, mid) = release_total target w inv i s here in
        let lt = get_elem?-lt w.vars i here in
        let w₁ : World A = record w { heap = h; vars = set w.vars i none } in
        let (h₂, run₂, kept) =
          retain_total target w₁ mid i (ground (arith, get_elem?-set w.vars i i none lt)) j r
            (ground (arith, get_elem?-set w.vars i j none lt)) in
        (
          record w { heap = h₂; vars = set w.vars i (some r) },
          ground arith,
          (
            target,
            subst (λ vs. Inv target (record w { heap = h₂; vars = vs }))
                (set-set w.vars i none (some r)) kept,
          ),
        )
  ]

  default-IsSound :
      (w : World A) (i : ℕ) → IsSound w → IsFree w i → IsSound (put w i (some empty) w.heap)
  default-IsSound w i (target, inv) free =
      let same = λ (c : ℕ).
        let e : owners c (set w.vars i (some empty)) ≡ owners c w.vars =
          omega (arith, owners-set c w.vars i none (some empty) free) in
        e in
      (
        target,
        record {
          counted = λ c. ground (arith, same c, inv.counted c);
          pointers = λ k r e. elim (Bool-cases (i == k)) [
            | inl new ↦
                let one : empty ≡ r =
                  ground
                    (arith, get_elem?-set w.vars i k (some empty) (get_elem?-lt w.vars i free)) in
                inl (ground arith, ground arith)
            | inr old ↦
                inv.pointers k r (
                  ground
                    (arith, get_elem?-set w.vars i k (some empty) (get_elem?-lt w.vars i free)))
          ];
          apart = λ c d p pc pd. inv.apart c d p (omega (arith, same c)) (omega (arith, same d));
          alive = λ c p pc. inv.alive c p (omega (arith, same c));
          held = λ p a e. elim (inv.held p a e) [
            | inl r ↦ inl r
            | inr (c, pc, at) ↦ inr (c, omega (arith, same c), at)
          ];
          raw = λ p r.
              let (there, apart_from) = inv.raw p r in
              (there, λ c pc. apart_from c (omega (arith, same c)));
        },
      )

  -- A new object stands where no object was, so none of the pointers counted is its address.
  new_object-IsSound :
      (w : World A) (p : ℕ) (a : A)
      → IsSound w
      → w.heap.objects p ≡ none
      → IsSound (record w {
        heap = record { objects = update w.heap.objects p (some a); counts = w.heap.counts };
        raws = update w.raws p true;
      })
  new_object-IsSound w p a (target, inv) unused = (
    target,
    record {
      counted = inv.counted;
      pointers = inv.pointers;
      apart = inv.apart;
      alive = λ c q pc at. let (b, live) = inv.alive c q pc at in (b, ground (arith, live, unused));
      held = λ q b e. elim (Bool-cases (q == p)) [
        | inl new ↦ inl (ground (arith, new))
        | inr old ↦ elim (inv.held q b (ground (arith, old, e))) [
          | inl r ↦ inl (ground (arith, old, r))
          | inr owned ↦ inr owned
        ]
      ];
      raw = λ q r. elim (Bool-cases (q == p)) [
        | inl new ↦ (
          (a, ground (arith, new)),
          λ c pc at.
              let (b, live) = inv.alive c q pc at in absurd (ground (arith, live, unused, new)),
        )
        | inr old ↦
            let ((b, there), apart_from) = inv.raw q (ground (arith, old, r)) in
            ((b, ground (arith, old, there)), apart_from)
      ];
    },
  )

  module _ (w : World A) (i : ℕ) (p : Option ℕ) (c : ℕ) (target : ℕ → Option ℕ) (inv : Inv target w)
      (free : IsFree w i) (may : MayGive w p) (new_count : w.heap.counts c ≡ none) where
    abbrev fresh : SharedPtr
    fresh = record { ptr = p; ref_count = some c }

    abbrev extended : ℕ → Option ℕ
    extended = update target c p

    unowned : owners c w.vars ≡ 0
    unowned = ground (arith, inv.counted c)

    one_more :
        (d : ℕ) → owners d (set w.vars i (some fresh)) ≡ owners d w.vars + (if d == c then 1 else 0)
    one_more d = omega (arith, owners-set d w.vars i none (some fresh) free)

    old-IsPointer :
        (k : ℕ) (r : SharedPtr) → get_elem? w.vars k ≡ some (some r) → IsPointer extended r
    old-IsPointer k r e = elim (inv.pointers k r e) [
      | inl null ↦ inl null
      | inr (d, at, counter) ↦
          inr (d, ground (arith, share-le-owners d w.vars k (some r) e, unowned), counter)
    ]

    -- No pointer that is counted already is the one that is given.
    not_given : (q : ℕ) → p ≡ some q → (d : ℕ) → 0 < owners d w.vars → target d ≢ some q
    not_given q is = (inv.raw q (subst (MayGive w) is may)).1

    given_there : (q : ℕ) → p ≡ some q → (a : A) × (w.heap.objects q ≡ some a)
    given_there q is = (inv.raw q (subst (MayGive w) is may)).0

    construct-IsSound : IsSound (record w {
      heap = record { objects = w.heap.objects; counts = update w.heap.counts c (some (pos 1)) };
      vars = set w.vars i (some fresh);
      raws = given p w.raws;
    })
    construct-IsSound = (
      extended,
      record {
        counted = λ d. ground (arith, one_more d, inv.counted d, unowned);
        pointers = λ k r e. elim (Bool-cases (i == k)) [
          | inl new ↦
              let one : fresh ≡ r =
                ground
                  (arith, get_elem?-set w.vars i k (some fresh) (get_elem?-lt w.vars i free)) in
              inr (c, ground arith, ground arith)
          | inr old ↦
              old-IsPointer k r
                (ground (arith, get_elem?-set w.vars i k (some fresh) (get_elem?-lt w.vars i free)))
        ];
        apart = λ d e q pd pe at_d at_e. elim (Bool-cases (d == c)) [
          | inl d_new ↦ elim (Bool-cases (e == c)) [
            | inl e_new ↦ ground (arith, d_new, e_new)
            | inr e_old ↦ absurd (
                not_given q (ground (arith, d_new, at_d)) e (ground (arith, one_more e, e_old))
                  (ground (arith, e_old, at_e)))
          ]
          | inr d_old ↦ elim (Bool-cases (e == c)) [
            | inl e_new ↦ absurd (
                not_given q (ground (arith, e_new, at_e)) d (ground (arith, one_more d, d_old))
                  (ground (arith, d_old, at_d)))
            | inr e_old ↦
                inv.apart d e q (ground (arith, one_more d, d_old))
                  (ground (arith, one_more e, e_old)) (ground (arith, d_old, at_d))
                  (ground (arith, e_old, at_e))
          ]
        ];
        alive = λ d q pd at. elim (Bool-cases (d == c)) [
          | inl new ↦ given_there q (ground (arith, new, at))
          | inr old ↦ inv.alive d q (ground (arith, one_more d)) (ground (arith, old, at))
        ];
        held = λ q b e. elim (inv.held q b e) [
          | inl r ↦ elim (given-other p w.raws q r) [
            | inl still ↦ inl still
            | inr is ↦ inr (c, ground (arith, one_more c), ground (arith, is))
          ]
          | inr (d, pd, at) ↦ inr (d, ground (arith, one_more d), ground (arith, unowned, at))
        ];
        raw = λ q r.
            let (before, not_it) = given-true p w.raws q r in
            let (there, apart_from) = inv.raw q before in
            (
              there,
              λ d pd at. elim (Bool-cases (d == c)) [
                | inl new ↦ not_it (ground (arith, new, at))
                | inr old ↦ apart_from d (ground (arith, one_more d, old)) (ground (arith, old, at))
              ],
            );
      },
    )

  -- From a state where the invariant holds, every operation that the language allows returns, so it
  -- frees nothing twice and reads nothing that is freed, and keeps the invariant, if a `T*` is given to
  -- a `shared_ptr_` only when it is null or an object of `new` that no `shared_ptr_` was given.
  pub shared_ptr_total :
      (w : World A) (op : Op A)
      → IsSound w
      → Allowed w op
      → (w' : World A) × (perform w op ≡ ok w') × IsSound w'
  unfolding perform
  shared_ptr_total w (construct_default i) sound free = (_, refl, default-IsSound w i sound free)
  shared_ptr_total w (new_object p a) sound unused =
      (_, refl, new_object-IsSound w p a sound unused)
  shared_ptr_total w (construct i p c) (target, inv) (free, may, new_count) =
      (_, refl, construct-IsSound w i p c target inv free may new_count)
  shared_ptr_total w (copy_construct i j) sound (free, there) =
      construct_from_total w i j sound free there
  shared_ptr_total w (move_construct i j) sound (free, there) =
      construct_from_total w i j sound free there
  shared_ptr_total w (copy_assign i j) sound (here, there) = assign_total w i j sound here there
  shared_ptr_total w (move_assign i j) sound (here, there) = assign_total w i j sound here there
  shared_ptr_total w (destruct i) sound here = destroy_total w i sound here
