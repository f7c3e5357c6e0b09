-- ===== src/SharedPtr.antt =====
-- _ptr/shared_ptr.cpp: `shared_ptr_<T>` over a heap of objects and of reference counts, and the
-- variables of a program that hold such pointers. A null pointer is `none`. Allocation is taken to
-- succeed; the address that `new` returns is an argument. A read, write or `delete` of memory that
-- is not allocated is a `fault`. `operator=(shared_ptr_&&)` calls `p.ptr()`, which is no function, and
-- does not compile where it is used: it is read as it is meant, with `p.ptr`, which makes its body
-- that of the copy assignment. Threads that give up their pointers at once are in Race.
pub mod Inv
pub mod Steps
pub mod Program
pub mod Lifetime
pub mod Race
mod Tests
use learning_c.Common.{
  ℕ, Bool, true, false, Option, none, some, List, ◌==◌, if◌then◌else◌, get_elem?, set, update, Run,
  ok, fault, ◌>>=◌, access, ℤ, pos, increment, decrement, is_zero,
}

-- the two members of `shared_ptr_`
pub record SharedPtr : Type 0 where
  pub ptr : Option ℕ
  pub ref_count : Option ℕ

module _ (A : Type 0) where
  pub record Heap : Type 0 where
    pub objects : ℕ → Option A
    pub counts : ℕ → Option ℤ

  -- A variable that is not in scope is `none`. `raws p` says that the program itself holds the object
  -- at `p`, which it made with `new` and has not yet given to a pointer.
  pub record World : Type 0 where
    pub heap : Heap
    pub vars : List (Option SharedPtr)
    pub raws : ℕ → Bool

-- What a program does. `new_object p a` is `new T(a)`, which returns `p`, and `construct i p c` is
-- `shared_ptr_<T> x(p)` for any `T*`, null or not, where `new` returns `c` for the count.
pub data Op (A : Type 0) : Type 0 where
  construct_default : (i : ℕ) → Op A
  new_object : (p : ℕ) → A → Op A
  construct : (i : ℕ) → (p : Option ℕ) → (c : ℕ) → Op A
  copy_construct move_construct copy_assign move_assign : (i j : ℕ) → Op A
  destruct : (i : ℕ) → Op A

-- what the program still holds by itself when it has given a pointer to a `shared_ptr_`
abbrev pub given : Option ℕ → (ℕ → Bool) → ℕ → Bool
given none raws = raws
given (some p) raws = update raws p false

abbrev pub empty : SharedPtr
empty = record { ptr = none; ref_count = none }

module _ {A : Type 0} where
  -- `delete ptr`
  abbrev pub delete_object : Option ℕ → Heap A → Run (Heap A)
  delete_object none h = ok h
  delete_object (some p) h = do
    a ← access (h.objects p)
    ok (record h { objects = update h.objects p none })

  abbrev pub set_count : ℕ → Option ℤ → Heap A → Heap A
  set_count c n h = record h { counts = update h.counts c n }

  unfoldable pub release : SharedPtr → Heap A → Run (Heap A)
  release s h = elim s.ref_count [
    | none ↦ ok h
    | some c ↦ do
      n ← access (h.counts c)
      let lowered = set_count c (some (decrement n)) h
      if is_zero (decrement n)
          then (do deleted ← delete_object s.ptr lowered; ok (set_count c none deleted))
          else ok lowered
  ]

  -- `if (ref_count != nullptr) (*ref_count)++`
  unfoldable pub retain : SharedPtr → Heap A → Run (Heap A)
  retain s h = elim s.ref_count [
    | none ↦ ok h
    | some c ↦ do n ← access (h.counts c); ok (set_count c (some (increment n)) h)
  ]

  abbrev pub use_count : SharedPtr → Heap A → Run ℤ
  use_count s h = elim s.ref_count [ none ↦ ok (pos 0) | some c ↦ access (h.counts c) ]

  -- `operator*`
  abbrev pub deref : SharedPtr → Heap A → Run A
  deref s h = do p ← access s.ptr; access (h.objects p)

  -- the variable `i`, which must be in scope
  abbrev pub var : World A → ℕ → Run SharedPtr
  var w i = do slot ← access (get_elem? w.vars i); access slot

  abbrev pub put : World A → ℕ → Option SharedPtr → Heap A → World A
  put w i slot h = record w { heap = h; vars = set w.vars i slot }

  -- Both constructors from another pointer have the same body: the other one keeps its members.
  unfoldable pub construct_from : World A → ℕ → ℕ → Run (World A)
  construct_from w i j = do p ← var w j; h ← retain p w.heap; ok (put w i (some p) h)

  unfoldable pub destroy : World A → ℕ → Run (World A)
  destroy w i = do s ← var w i; h ← release s w.heap; ok (put w i none h)

  -- `release()`, then the members of `p`, then the count, unless `this == &p`
  unfoldable pub assign : World A → ℕ → ℕ → Run (World A)
  assign w i j = if i == j then ok w else (do
    s ← var w i
    h ← release s w.heap
    p ← var w j
    h₂ ← retain p h
    ok (put w i (some p) h₂))

  unfoldable pub perform : World A → Op A → Run (World A)
  perform w (construct_default i) = ok (put w i (some empty) w.heap)
  perform w (new_object p a) = ok (record w {
    heap = record { objects = update w.heap.objects p (some a); counts = w.heap.counts };
    raws = update w.raws p true;
  })
  perform w (construct i p c) = ok (record w {
    heap = set_count c (some (pos 1)) w.heap;
    vars = set w.vars i (some (record { ptr = p; ref_count = some c }));
    raws = given p w.raws;
  })
  perform w (copy_construct i j) = construct_from w i j
  perform w (move_construct i j) = construct_from w i j
  perform w (copy_assign i j) = assign w i j
  perform w (move_assign i j) = assign w i j
  perform w (destruct i) = destroy w i
