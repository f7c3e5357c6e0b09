-- ===== src/UniquePtr.antt =====
-- _ptr/unique_ptr.cpp: `unique_ptr_<T>` over a heap of objects. A null pointer is `none`, and the
-- address that `new` returns is an argument. `raws` holds the pointers that `release` has given to
-- the program. A `delete` of an object that is not there is a `fault`. The move assignment compares
-- `this` with an object and does not compile where it is used: it is read as it is meant, `this != &p`.
pub mod Inv
pub mod Allowed
pub mod Program
pub mod Lifetime
mod Tests
use learning_c.Common.{
  ℕ, Bool, Option, none, some, List, [], ◌∷◌, ◌==◌, if◌then◌else◌, get_elem?, set, update, Run, ok,
  fault, ◌>>=◌, access,
}

-- the member `ptr`
abbrev pub UniquePtr : Type 0
UniquePtr = Option ℕ

-- A variable that is not in scope is `none`.
pub record World (A : Type 0) : Type 0 where
  pub objects : ℕ → Option A
  pub vars : List (Option UniquePtr)
  pub raws : List ℕ

-- What a program does. `new_object p a` is `new T(a)`, whose pointer is the program's at first.
pub data Op (A : Type 0) : Type 0 where
  new_object : (p : ℕ) → A → Op A
  construct : (i : ℕ) → UniquePtr → Op A
  move_construct move_assign : (i j : ℕ) → Op A
  release : (i : ℕ) → Op A
  reset : (i : ℕ) → UniquePtr → Op A
  destruct : (i : ℕ) → Op A

abbrev pub take_raw : ℕ → List ℕ → List ℕ
take_raw p [] = []
take_raw p (q ∷ qs) = if q == p then qs else q ∷ take_raw p qs

module _ {A : Type 0} where
  -- `if (ptr != nullptr) delete ptr`
  abbrev pub delete_object : UniquePtr → World A → Run (World A)
  delete_object none w = ok w
  delete_object (some p) w = do
    a ← access (w.objects p)
    ok (record w { objects = update w.objects p none })

  abbrev pub var : World A → ℕ → Run UniquePtr
  var w i = do slot ← access (get_elem? w.vars i); access slot

  abbrev pub put : ℕ → Option UniquePtr → World A → World A
  put i slot w = record w { vars = set w.vars i slot }

  -- a pointer passes from the program to a variable, and back
  abbrev pub given : UniquePtr → World A → World A
  given none w = w
  given (some p) w = record w { raws = take_raw p w.raws }

  abbrev pub returned : UniquePtr → World A → World A
  returned none w = w
  returned (some p) w = record w { raws = p ∷ w.raws }

  unfoldable pub perform : World A → Op A → Run (World A)
  perform w (new_object p a) =
      ok (record w { objects = update w.objects p (some a); raws = p ∷ w.raws })
  perform w (construct i p) = ok (put i (some p) (given p w))
  perform w (move_construct i j) = do p ← var w j; ok (put j (some none) (put i (some p) w))
  perform w (move_assign i j) = if i == j then ok w else (do
    old ← var w i
    w₁ ← delete_object old w
    p ← var w j
    ok (put j (some none) (put i (some p) w₁)))
  perform w (release i) = do p ← var w i; ok (returned p (put i (some none) w))
  perform w (reset i p) = do
    old ← var w i
    w₁ ← delete_object old (given p w)
    ok (put i (some p) w₁)
  perform w (destruct i) = do old ← var w i; w₁ ← delete_object old w; ok (put i none w₁)
