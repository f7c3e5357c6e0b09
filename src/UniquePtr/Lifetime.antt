-- ===== src/UniquePtr/Lifetime.antt =====
-- _ptr/unique_ptr.cpp: programs from their start, and a pointer that is given to its own owner.
use learning_c.Common.{
  ℕ, zero, suc, ◌≤◌, ◌≡◌, ◌≢◌, refl, Option, none, some, List, [], ◌∷◌, ◌==◌, get_elem?,
  get_elem?-lt, get_elem?-set, update, arith, All, ok, fault, Bool-cases, inl, inr, Option-cases,
}
use learning_c.UniquePtr.{UniquePtr, World, reset, destruct, given, put, perform}
use learning_c.UniquePtr.Inv.{holders, count, Inv}
use learning_c.UniquePtr.Program.{Runs, Runs-Inv}

holders-one :
    (p : ℕ) (vs : List (Option UniquePtr)) (i : ℕ)
    → get_elem? vs i ≡ some (some (some p))
    → 1 ≤ holders p vs
unfolding holders
holders-one p [] i a = absurd (ground arith)
holders-one p (v ∷ vs) zero a = ground arith
holders-one p (v ∷ vs) (suc i) a = ground (arith, holders-one p vs i a)

-- Two places that hold one pointer count for two.
holders-two :
    (p : ℕ) (vs : List (Option UniquePtr)) (i j : ℕ)
    → get_elem? vs i ≡ some (some (some p))
    → get_elem? vs j ≡ some (some (some p))
    → i ≢ j
    → 2 ≤ holders p vs
unfolding holders
holders-two p [] i j a b ne = absurd (ground arith)
holders-two p (v ∷ vs) zero zero a b ne = absurd (omega arith)
holders-two p (v ∷ vs) zero (suc j) a b ne = ground (arith, holders-one p vs j b)
holders-two p (v ∷ vs) (suc i) zero a b ne = ground (arith, holders-one p vs i a)
holders-two p (v ∷ vs) (suc i) (suc j) a b ne =
    ground (arith, holders-two p vs i j a b (omega arith))

holders-none : (p : ℕ) (vs : List (Option UniquePtr)) → All (λ v. v ≡ none) vs → holders p vs ≡ 0
unfolding holders
holders-none p [] h = refl
holders-none p (v ∷ vs) h = ground (arith, holders-none p vs h.1)

module _ {A : Type 0} where
  -- Before the first operation nothing is allocated and no variable is in scope.
  pub record IsStart (w : World A) : Type 0 where
    pub unused : All (λ v. v ≡ none) w.vars
    pub no_object : (p : ℕ) → w.objects p ≡ none
    pub no_raw : w.raws ≡ []

  start-Inv : (w : World A) → IsStart w → Inv w
  unfolding count
  start-Inv w h p = ground (arith, holders-none p w.vars h.unused, h.no_object p, h.no_raw)

  -- No two variables ever own one object, and what a variable owns is there to be read.
  pub unique_owner :
      (w v : World A) (i j p : ℕ)
      → IsStart w
      → Runs w v
      → get_elem? v.vars i ≡ some (some (some p))
      → get_elem? v.vars j ≡ some (some (some p))
      → (i ≡ j) × ((a : A) × (v.objects p ≡ some a))
  unique_owner w v i j p start r a b =
      let inv = Runs-Inv (start-Inv w start) r p in
      (
        elim (Bool-cases (i == j)) [
          | inl same ↦ ground arith
          | inr other ↦ absurd (ground (arith, holders-two p v.vars i j a b))
        ],
        elim (Option-cases (v.objects p)) [
          | inl gone ↦ absurd (ground (arith, holders-one p v.vars i a))
          | inr there ↦ there
        ],
      )

  -- When no variable is in scope and the program has kept no released pointer, every object has
  -- been deleted.
  pub unique_ptr_no_leak :
      (w v : World A)
      → IsStart w
      → Runs w v
      → All (λ x. x ≡ none) v.vars
      → v.raws ≡ []
      → (p : ℕ) → v.objects p ≡ none
  unfolding count
  unique_ptr_no_leak w v start r gone kept p =
      let inv = Runs-Inv (start-Inv w start) r p in ground (arith, holders-none p v.vars gone)

  -- `x.reset(x.get())` deletes the object that `x` then holds, and the end of `x` deletes it again.
  pub reset_self :
      (w : World A) (i p : ℕ) (a : A)
      → get_elem? w.vars i ≡ some (some (some p))
      → w.objects p ≡ some a
      → (w' : World A) × (perform w (reset i (some p)) ≡ ok w') × (perform w' (destruct i) ≡ fault)
  unfolding perform
  reset_self w i p a here there =
      let w₁ = given (some p) w in
      (
        put i (some (some p)) (record w₁ { objects = update w.objects p none }),
        ground arith,
        ground (arith, get_elem?-set w.vars i i (some (some p)) (get_elem?-lt w.vars i here)),
      )
