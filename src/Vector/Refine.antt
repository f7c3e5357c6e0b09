-- ===== src/Vector/Refine.antt =====
-- vector/vector_.cpp: a vector as the list that it stands for.
use mathlib.Core.List.{append_assoc}
use learning_c.Common.{
  ℕ, suc, ◌+◌, ◌*◌, ◌-◌, ◌≡◌, refl, ◌∙◌, Bool, true, false, none, some, List, [], ◌∷◌, ◌++◌, ◌==◌,
  if◌then◌else◌, length, length-append, ok, arith, inl, inr, Bool-cases, ◌⊎◌,
}
use learning_c.Vector.{
  Vector, done, copy_threw, element_threw, create, raw, clear, deallocate, reallocate, place,
  emplace_back, pop_back, destruct,
}
use learning_c.Vector.Memory.{
  filled, filled-append, length-filled, raw-eq-append, construct-middle, destroy-middle,
  destroy_from_total, move_from_total,
}

module _ {T : Type 0} where
  -- The objects of the vector are those of the list, in front of some raw slots.
  pub record Holds (v : Vector T) (xs : List T) : Type 0 where
    pub spare : ℕ
    pub slots : v.memory ≡ filled xs ++ raw spare
    pub count : v.size ≡ length xs
    pub room : v.capacity ≡ length xs + spare

  clear_total : (v : Vector T) (xs : List T) → Holds v xs → (w : Vector T) × (clear v ≡ ok w)
  clear_total v xs h =
      let (r, run, is) = destroy_from_total xs [] (raw h.spare) 0 refl in
      (record v { memory = r; size = 0 }, ground (arith, run, h.slots, h.count))

  place_total :
      (v : Vector T) (xs : List T) (x : T) (h : Holds v xs) (k : ℕ)
      → h.spare ≡ suc k
      → (w : Vector T) × (place false x (done v) ≡ ok (done w))
        × Holds w (xs ++ x ∷ [])
        × (w.capacity ≡ v.capacity)
  place_total v xs x h k e =
      let put =
        construct-middle (filled xs) (raw k) v.size x (omega (arith, h.count, length-filled xs)) in
      let w : Vector T = record v { memory = filled xs ++ some x ∷ raw k; size = suc v.size } in
      (
        w,
        ground (arith, put, h.slots, e),
        record {
          spare = k;
          slots =
              ground
                (arith, filled-append xs (x ∷ []), append_assoc (filled xs) (some x ∷ []) (raw k));
          count = ground (arith, h.count, length-append xs (x ∷ []));
          room = ground (arith, h.room, e, length-append xs (x ∷ []));
        },
        refl,
      )

  reallocate_total :
      (throws : ℕ → Bool) (v : Vector T) (xs : List T) (new_cap k : ℕ)
      → Holds v xs
      → new_cap ≡ length xs + k
      → ((j : ℕ) × (throws j ≡ true)
          × (reallocate throws v new_cap ≡ ok (copy_threw v (raw new_cap))))
        ⊎ ((w : Vector T) × (reallocate throws v new_cap ≡ ok (done w))
            × (w.memory ≡ filled xs ++ raw k)
            × (w.size ≡ length xs)
            × (w.capacity ≡ new_cap))
  unfolding reallocate
  reallocate_total throws v xs new_cap k h e =
      let fresh = raw-eq-append {T = T} new_cap (length xs) k e in
      let (cleared, run) = clear_total v xs h in
      elim (move_from_total throws xs [] (raw h.spare) k 0 refl) [
        | inl (j, thrown, stopped) ↦
            inl (j, thrown, ground (arith, stopped, fresh, h.slots, h.count, e))
        | inr moved ↦
            let w : Vector T = record (deallocate cleared) {
              memory = filled xs ++ raw k;
              size = v.size;
              capacity = new_cap;
            } in
            inr (w, ground (arith, moved, run, fresh, h.slots, h.count), refl, h.count, refl)
      ]

  grown_room :
      (v : Vector T) (xs : List T)
      → Holds v xs
      → (v.size == v.capacity) ≡ true
      → (if v.capacity == 0 then 1 else v.capacity * 2)
        ≡ length xs + suc ((if v.capacity == 0 then 1 else v.capacity * 2) - suc (length xs))
  grown_room v xs h full = ground (arith, h.count, h.room, full)

  -- the capacity that `emplace_back` leaves
  abbrev pub grown_capacity : Vector T → ℕ
  grown_capacity v =
      if v.size == v.capacity then (if v.capacity == 0 then 1 else v.capacity * 2) else v.capacity

  -- The vector stands for the list, with the capacity that `emplace_back` leaves.
  abbrev pub Grown : Vector T → Vector T → List T → Type 0
  Grown v w xs = Holds w xs × (w.capacity ≡ grown_capacity v)

  -- what `emplace_back` does when there is room, or has been made
  placed :
      (fails : Bool) (v w : Vector T) (xs : List T) (x : T) (k : ℕ)
      → (h : Holds w xs) → h.spare ≡ suc k
      → w.capacity ≡ grown_capacity v
      → ((fails ≡ true) × (place fails x (done w) ≡ ok (element_threw w)))
        ⊎ ((fails ≡ false)
            × ((u : Vector T) × (place fails x (done w) ≡ ok (done u)) × Grown v u (xs ++ x ∷ [])))
  placed true v w xs x k h e large = inl (refl, refl)
  placed false v w xs x k h e large =
      let (u, run, holds, same) = place_total w xs x h k e in
      inr (refl, (u, run, (holds, same ∙ large)))

  -- the ends of `emplace_back`: a copy or the new element has thrown, or neither has
  abbrev pub Ends : (ℕ → Bool) → Bool → Vector T → List T → T → Type 0
  Ends throws fails v xs x =
      ((j : ℕ) × (throws j ≡ true)
        × (v.size ≡ v.capacity)
        × (emplace_back throws fails v x ≡ ok (copy_threw v (raw (grown_capacity v)))))
      ⊎ ((w : Vector T) × (fails ≡ true)
          × (emplace_back throws fails v x ≡ ok (element_threw w))
          × Grown v w xs)
      ⊎ ((w : Vector T) × (fails ≡ false)
          × (emplace_back throws fails v x ≡ ok (done w))
          × Grown v w (xs ++ x ∷ []))

  finish :
      (throws : ℕ → Bool) (fails : Bool) (v w : Vector T) (xs : List T) (x : T) (k : ℕ)
      → (h : Holds w xs) → h.spare ≡ suc k
      → w.capacity ≡ grown_capacity v
      → emplace_back throws fails v x ≡ place fails x (done w)
      → Ends throws fails v xs x
  finish throws fails v w xs x k h e large run = elim (placed fails v w xs x k h e large) [
    | inl (failed, thrown) ↦ inr (inl (w, failed, run ∙ thrown, (h, large)))
    | inr (fine, (u, put, grown)) ↦ inr (inr (u, fine, run ∙ put, grown))
  ]

  -- On a vector that stands for a list, `emplace_back` returns or throws. If a copy throws, which it
  -- may only where there was no room, the vector is as it was, and the new memory has no object left
  -- when it is given back. If the new element throws, the vector stands for the same list, and if not,
  -- for the list with the element at its end; its capacity is then the old one, or twice that where
  -- it was used up, and at least 1.
  pub emplace_back_total :
      (throws : ℕ → Bool) (fails : Bool) (v : Vector T) (xs : List T) (x : T)
      → Holds v xs
      → Ends throws fails v xs x
  unfolding emplace_back
  emplace_back_total throws fails v xs x h = elim (Bool-cases (v.size == v.capacity)) [
    | inr room ↦
        let k = h.spare - 1 in
        let e : h.spare ≡ suc k = ground (arith, h.count, h.room, room) in
        finish throws fails v v xs x k h e (ground (arith, room)) (ground (arith, room))
    | inl full ↦
        let new_cap = if v.capacity == 0 then 1 else v.capacity * 2 in
        let k = new_cap - suc (length xs) in
        let e : new_cap ≡ length xs + suc k = grown_room v xs h full in
        elim (reallocate_total throws v xs new_cap (suc k) h e) [
          | inl (j, thrown, stopped) ↦
              inl (j, thrown, ground (arith, full), ground (arith, full, stopped))
          | inr (r, moved, slots, count, large) ↦
              let holds_r : Holds r xs = record {
                spare = suc k;
                slots = slots;
                count = count;
                room = ground (arith, large, e);
              } in
              finish throws fails v r xs x k holds_r refl (ground (arith, large, full))
                (ground (arith, full, moved))
        ]
  ]

  -- `pop_back` takes the last element of a vector that stands for a list and keeps its capacity; it
  -- leaves an empty vector as it is.
  pub pop_back_total :
      (v : Vector T) (xs : List T) (x : T)
      → Holds v (xs ++ x ∷ [])
      → (w : Vector T) × (pop_back v ≡ ok w) × Holds w xs × (w.capacity ≡ v.capacity)
  pop_back_total v xs x h =
      let count : v.size ≡ suc (length xs) = omega (arith, h.count, length-append xs (x ∷ [])) in
      let slots : v.memory ≡ filled xs ++ some x ∷ raw h.spare = ground (
        arith,
        h.slots,
        filled-append xs (x ∷ []),
        append_assoc (filled xs) (some x ∷ []) (raw h.spare),
      ) in
      let gone =
        destroy-middle (filled xs) (raw h.spare) (length xs) x (omega (arith, length-filled xs)) in
      let w : Vector T = record v { memory = filled xs ++ none ∷ raw h.spare; size = length xs } in
      (
        w,
        ground (arith, gone, slots, count),
        record {
          spare = suc h.spare;
          slots = refl;
          count = refl;
          room = omega (arith, h.room, length-append xs (x ∷ []));
        },
        refl,
      )

  -- The destructor of a vector that stands for a list destroys each element once and gives all of
  -- the memory back.
  pub destruct_total : (v : Vector T) (xs : List T) → Holds v xs → (destruct v ≡ ok create)
  unfolding destruct
  destruct_total v xs h = ground (arith, clear_total v xs h)
