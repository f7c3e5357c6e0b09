-- ===== src/UniquePtr/Allowed.antt =====
-- _ptr/unique_ptr.cpp: what a program may do, and the operations on one variable.
use learning_c.Common.{
  ℕ, ◌+◌, ◌<◌, ◌≡◌, refl, none, some, get_elem?, get_elem?-lt, get_elem?-set, set, update, arith,
  ok, inl, inr, Option-cases,
}
use learning_c.UniquePtr.{
  UniquePtr, World, Op, new_object, construct, move_construct, move_assign, release, reset,
  destruct, given, returned, put, perform,
}
use learning_c.UniquePtr.Inv.{points, holders-set, count, count-take_raw, Inv}

module _ {A : Type 0} where
  abbrev pub Holds : World A → ℕ → Type 0
  Holds w i = (p : UniquePtr) × (get_elem? w.vars i ≡ some (some p))

  abbrev pub IsFree : World A → ℕ → Type 0
  IsFree w i = get_elem? w.vars i ≡ some none

  -- The program may pass on a null pointer, or one that it has.
  abbrev pub MayPass : World A → UniquePtr → Type 0
  MayPass w none = Unit
  MayPass w (some p) = 0 < count p w.raws

  -- What the language demands, and that a raw pointer is given to one owner only.
  abbrev pub Allowed : World A → Op A → Type 0
  Allowed w (new_object p a) = w.objects p ≡ none
  Allowed w (construct i p) = IsFree w i × MayPass w p
  Allowed w (move_construct i j) = IsFree w i × Holds w j
  Allowed w (move_assign i j) = Holds w i × Holds w j
  Allowed w (release i) = Holds w i
  Allowed w (reset i p) = Holds w i × MayPass w p
  Allowed w (destruct i) = Holds w i

  abbrev pub Kept : World A → Op A → Type 0
  Kept w op = (w' : World A) × (perform w op ≡ ok w') × Inv w'

  pub given-count :
      (w : World A) (p : UniquePtr) (q : ℕ)
      → MayPass w p
      → count q (given p w).raws + points q (some p) ≡ count q w.raws
  given-count w none q h = ground arith
  given-count w (some p) q h = ground (arith, count-take_raw q p w.raws)

  pub construct_total :
      (w : World A) (i : ℕ) (p : UniquePtr)
      → Inv w
      → IsFree w i
      → MayPass w p
      → Kept w (construct i p)
  unfolding perform
  construct_total w i none inv free may =
      (_, refl, λ q. ground (arith, inv q, holders-set q w.vars i none (some none) free))
  construct_total w i (some p) inv free may = (
    _,
    refl,
    λ q. ground (
      arith,
      inv q,
      given-count w (some p) q may,
      holders-set q w.vars i none (some (some p)) free,
    ),
  )

  pub move_total :
      (w : World A) (i j : ℕ) (p : UniquePtr)
      → Inv w
      → IsFree w i
      → get_elem? w.vars j ≡ some (some p)
      → Kept w (move_construct i j)
  unfolding perform
  move_total w i j p inv free there =
      let lt = get_elem?-lt w.vars i free in
      let still : get_elem? (set w.vars i (some p)) j ≡ some (some p) =
        ground (arith, get_elem?-set w.vars i j (some p) lt) in
      (
        put j (some none) (put i (some p) w),
        rw there refl,
        λ q. ground (
          arith,
          inv q,
          holders-set q w.vars i none (some p) free,
          holders-set q (set w.vars i (some p)) j (some p) (some none) still,
        ),
      )

  pub release_total :
      (w : World A) (i : ℕ) (p : UniquePtr)
      → Inv w
      → get_elem? w.vars i ≡ some (some p)
      → Kept w (release i)
  unfolding perform count
  release_total w i none inv here = (
    put i (some none) w,
    rw here refl,
    λ q. ground (arith, inv q, holders-set q w.vars i (some none) (some none) here),
  )
  release_total w i (some p) inv here = (
    returned (some p) (put i (some none) w),
    rw here refl,
    λ q. ground (arith, inv q, holders-set q w.vars i (some (some p)) (some none) here),
  )

  -- An owned object is there to be deleted, and no one else owns it.
  pub owned-present :
      (w : World A) (i p : ℕ)
      → Inv w
      → get_elem? w.vars i ≡ some (some (some p))
      → (a : A) × (w.objects p ≡ some a)
  owned-present w i p inv here = elim (Option-cases (w.objects p)) [
    | inl gone ↦ absurd (ground (arith, inv p, holders-set p w.vars i (some (some p)) none here))
    | inr there ↦ there
  ]

  pub destruct_total :
      (w : World A) (i : ℕ) (p : UniquePtr)
      → Inv w
      → get_elem? w.vars i ≡ some (some p)
      → Kept w (destruct i)
  unfolding perform
  destruct_total w i none inv here = (
    put i none w,
    rw here refl,
    λ q. ground (arith, inv q, holders-set q w.vars i (some none) none here),
  )
  destruct_total w i (some p) inv here =
      let (a, there) = owned-present w i p inv here in
      (
        put i none (record w { objects = update w.objects p none }),
        ground arith,
        λ q. ground (arith, inv q, holders-set q w.vars i (some (some p)) none here),
      )
