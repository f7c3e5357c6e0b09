-- ===== src/SharedPtr/Inv.antt =====
-- _ptr/shared_ptr.cpp: owners of a count, and the invariant of heap and variables.
use learning_c.Common.{
  ℕ, zero, suc, ◌+◌, ◌<◌, ◌≤◌, ◌≡◌, ◌≢◌, ◌⊎◌, true, Option, none, some, List, [], ◌∷◌, ◌==◌,
  if◌then◌else◌, get_elem?, set, arith, pos,
}
use learning_c.SharedPtr.{SharedPtr, World}

-- 1 if the variable shares the count at `c`
abbrev pub share : ℕ → Option SharedPtr → ℕ
share c none = 0
share c (some s) = elim s.ref_count [ none ↦ 0 | some d ↦ if c == d then 1 else 0 ]

unfoldable pub owners : ℕ → List (Option SharedPtr) → ℕ
owners c [] = 0
owners c (v ∷ vs) = share c v + owners c vs

pub owners-set :
    (c : ℕ) (vs : List (Option SharedPtr)) (i : ℕ) (old new : Option SharedPtr)
    → get_elem? vs i ≡ some old
    → owners c (set vs i new) + share c old ≡ owners c vs + share c new
unfolding owners
owners-set c [] i old new h = absurd (ground arith)
owners-set c (v ∷ vs) zero old new h = ground arith
owners-set c (v ∷ vs) (suc i) old new h = omega (arith, owners-set c vs i old new h)

pub share-le-owners :
    (c : ℕ) (vs : List (Option SharedPtr)) (i : ℕ) (v : Option SharedPtr)
    → get_elem? vs i ≡ some v
    → share c v ≤ owners c vs
unfolding owners
share-le-owners c [] i v h = absurd (ground arith)
share-le-owners c (x ∷ vs) zero v h = ground arith
share-le-owners c (x ∷ vs) (suc i) v h = omega (arith, share-le-owners c vs i v h)

-- What the members of a pointer are: both null, or a count and the pointer that is counted there,
-- which may be null.
abbrev pub IsPointer : (ℕ → Option ℕ) → SharedPtr → Type 0
IsPointer target s =
    (s.ptr ≡ none) × (s.ref_count ≡ none) ⊎ ((c : ℕ) × (s.ptr ≡ target c) × (s.ref_count ≡ some c))

-- `target c` is the pointer that is counted at `c`.
pub record Inv {A : Type 0} (target : ℕ → Option ℕ) (w : World A) : Type 0 where
  pub counted :
      (c : ℕ)
      → w.heap.counts c ≡ (if owners c w.vars == 0 then none else some (pos (owners c w.vars)))
  pub pointers : (i : ℕ) (s : SharedPtr) → get_elem? w.vars i ≡ some (some s) → IsPointer target s
  pub apart :
      (c d p : ℕ)
      → 0 < owners c w.vars
      → 0 < owners d w.vars
      → target c ≡ some p
      → target d ≡ some p
      → c ≡ d
  pub alive :
      (c p : ℕ) → 0 < owners c w.vars → target c ≡ some p → (a : A) × (w.heap.objects p ≡ some a)
  pub held :
      (p : ℕ) (a : A)
      → w.heap.objects p ≡ some a
      → (w.raws p ≡ true) ⊎ ((c : ℕ) × (0 < owners c w.vars) × (target c ≡ some p))
  pub raw :
      (p : ℕ)
      → w.raws p ≡ true
      → ((a : A) × (w.heap.objects p ≡ some a))
        × ((c : ℕ) → 0 < owners c w.vars → target c ≢ some p)
