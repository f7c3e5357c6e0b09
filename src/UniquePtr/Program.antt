-- ===== src/UniquePtr/Program.antt =====
-- _ptr/unique_ptr.cpp: the move assignment and `reset`, and programs of all operations.
use learning_c.Common.{
  ℕ, ◌≡◌, refl, subst, none, some, get_elem?, get_elem?-lt, get_elem?-set, set, update, arith, ok,
  inl, inr, Bool-cases, false, ◌==◌,
}
use learning_c.UniquePtr.{
  UniquePtr, World, Op, new_object, construct, move_construct, move_assign, release, reset,
  destruct, given, put, perform,
}
use learning_c.UniquePtr.Inv.{holders-set, count, Inv}
use learning_c.UniquePtr.Allowed.{
  MayPass, Allowed, Kept, given-count, construct_total, move_total, release_total, owned-present,
  destruct_total,
}

module _ {A : Type 0} where
  -- The move assignment deletes what the variable owned, unless it is one to itself.
  move_into :
      (w : World A) (i j : ℕ) (old p : UniquePtr)
      → Inv w
      → get_elem? w.vars i ≡ some (some old)
      → get_elem? w.vars j ≡ some (some p)
      → (i == j) ≡ false
      → Kept w (move_assign i j)
  unfolding perform
  move_into w i j none p inv here there other =
      let lt = get_elem?-lt w.vars i here in
      let still : get_elem? (set w.vars i (some p)) j ≡ some (some p) =
        ground (arith, get_elem?-set w.vars i j (some p) lt) in
      (
        put j (some none) (put i (some p) w),
        ground (arith, other),
        λ q. ground (
          arith,
          inv q,
          holders-set q w.vars i (some none) (some p) here,
          holders-set q (set w.vars i (some p)) j (some p) (some none) still,
        ),
      )
  move_into w i j (some o) p inv here there other =
      let (a, live) = owned-present w i o inv here in
      let lt = get_elem?-lt w.vars i here in
      let still : get_elem? (set w.vars i (some p)) j ≡ some (some p) =
        ground (arith, get_elem?-set w.vars i j (some p) lt) in
      (
        put j (some none) (put i (some p) (record w { objects = update w.objects o none })),
        ground (arith, other),
        λ q. ground (
          arith,
          inv q,
          holders-set q w.vars i (some (some o)) (some p) here,
          holders-set q (set w.vars i (some p)) j (some p) (some none) still,
        ),
      )

  move_assign_total :
      (w : World A) (i j : ℕ) (old p : UniquePtr)
      → Inv w
      → get_elem? w.vars i ≡ some (some old)
      → get_elem? w.vars j ≡ some (some p)
      → Kept w (move_assign i j)
  unfolding perform
  move_assign_total w i j old p inv here there = elim (Bool-cases (i == j)) [
    | inl same ↦ (w, ground (arith, same), inv)
    | inr other ↦ move_into w i j old p inv here there other
  ]

  -- `reset` gives up the old object before it takes the new one.
  reset_total :
      (w : World A) (i : ℕ) (old p : UniquePtr)
      → Inv w
      → get_elem? w.vars i ≡ some (some old)
      → MayPass w p
      → Kept w (reset i p)
  unfolding perform
  reset_total w i none none inv here may = (
    put i (some none) w,
    ground arith,
    λ q. ground (arith, inv q, holders-set q w.vars i (some none) (some none) here),
  )
  reset_total w i none (some p) inv here may = (
    put i (some (some p)) (given (some p) w),
    ground arith,
    λ q. ground (
      arith,
      inv q,
      given-count w (some p) q may,
      holders-set q w.vars i (some none) (some (some p)) here,
    ),
  )
  reset_total w i (some o) none inv here may =
      let (a, there) = owned-present w i o inv here in
      (
        put i (some none) (record w { objects = update w.objects o none }),
        ground arith,
        λ q. ground (arith, inv q, holders-set q w.vars i (some (some o)) (some none) here),
      )
  reset_total w i (some o) (some p) inv here may =
      let (a, there) = owned-present w i o inv here in
      let w₁ = given (some p) w in
      (
        put i (some (some p)) (record w₁ { objects = update w.objects o none }),
        ground arith,
        λ q. ground (
          arith,
          inv q,
          given-count w (some p) q may,
          holders-set q w.vars i (some (some o)) (some (some p)) here,
        ),
      )

  -- Every operation that is allowed returns, so nothing is deleted twice, and afterwards each object
  -- has exactly one owner again.
  pub unique_ptr_total :
      (w : World A) (op : Op A)
      → Inv w
      → Allowed w op
      → (w' : World A) × (perform w op ≡ ok w') × Inv w'
  unfolding perform count
  unique_ptr_total w (new_object p a) inv fresh = (_, refl, λ q. ground (arith, inv q, inv p))
  unique_ptr_total w (construct i p) inv (free, may) = construct_total w i p inv free may
  unique_ptr_total w (move_construct i j) inv (free, (p, there)) = move_total w i j p inv free there
  unique_ptr_total w (move_assign i j) inv ((old, here), (p, there)) =
      move_assign_total w i j old p inv here there
  unique_ptr_total w (release i) inv (p, here) = release_total w i p inv here
  unique_ptr_total w (reset i p) inv ((old, here), may) = reset_total w i old p inv here may
  unique_ptr_total w (destruct i) inv (p, here) = destruct_total w i p inv here

  -- The operations of a program, each allowed where it is made.
  pub data Runs (w : World A) : World A → Type 0 where
    begin : Runs w w
    then_do : {v u : World A} (op : Op A) → Runs w v → Allowed v op → perform v op ≡ ok u → Runs w u

  pub Runs-Inv : {w v : World A} → Inv w → Runs w v → Inv v
  Runs-Inv inv begin = inv
  Runs-Inv inv (then_do {v = u} op r allowed e) =
      let (x, run, kept) = unique_ptr_total u op (Runs-Inv inv r) allowed in
      let same : x ≡ _ = ground arith in subst Inv same kept
