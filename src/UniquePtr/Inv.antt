-- ===== src/UniquePtr/Inv.antt =====
-- _ptr/unique_ptr.cpp: the owners of an object, variables or the program itself.
use learning_c.Common.{
  ℕ, zero, suc, ◌+◌, ◌≡◌, Option, none, some, List, [], ◌∷◌, ◌==◌, if◌then◌else◌, get_elem?, set,
  arith,
}
use learning_c.UniquePtr.{UniquePtr, World, take_raw}

abbrev pub points : ℕ → Option UniquePtr → ℕ
points p none = 0
points p (some none) = 0
points p (some (some q)) = if p == q then 1 else 0

unfoldable pub holders : ℕ → List (Option UniquePtr) → ℕ
holders p [] = 0
holders p (v ∷ vs) = points p v + holders p vs

unfoldable pub count : ℕ → List ℕ → ℕ
count p [] = 0
count p (q ∷ qs) = (if p == q then 1 else 0) + count p qs

abbrev pub present {ℓ} : {A : Type ℓ} → Option A → ℕ
present none = 0
present (some a) = 1

-- Owners of each address: one if an object is there, none if not.
abbrev pub Inv : {A : Type 0} → World A → Type 0
Inv w = (p : ℕ) → holders p w.vars + count p w.raws ≡ present (w.objects p)

pub holders-set :
    (p : ℕ) (vs : List (Option UniquePtr)) (i : ℕ) (old new : Option UniquePtr)
    → get_elem? vs i ≡ some old
    → holders p (set vs i new) + points p old ≡ holders p vs + points p new
unfolding holders
holders-set p [] i old new h = absurd (ground arith)
holders-set p (v ∷ vs) zero old new h = ground arith
holders-set p (v ∷ vs) (suc i) old new h = ground (arith, holders-set p vs i old new h)

-- A pointer that the program has is taken away once.
pub count-take_raw :
    (p q : ℕ) (qs : List ℕ)
    → count p (take_raw q qs) + (if p == q then (if count q qs == 0 then 0 else 1) else 0)
      ≡ count p qs
unfolding count
count-take_raw p q [] = ground arith
count-take_raw p q (r ∷ qs) = ground (arith, count-take_raw p q qs)
