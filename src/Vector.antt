-- ===== src/Vector.antt =====
-- vector/vector_.cpp: `vector_<T>` over its memory. A slot of the memory is `none` where no object
-- stands. Building an object over another or out of bounds, and destroying or reading one that is
-- not there, is a `fault`. `throws i` says whether the copy of element `i` throws, and `fails` whether
-- the construction of the new element does. Allocation is taken to succeed, and what the file leaves uncompilable (a
-- stray word, a `return` in a `void` function, `~T[i]`) is read as it is meant.
pub mod Memory
pub mod Refine
mod Tests
use learning_c.Common.{
  ℕ, zero, suc, ◌+◌, ◌*◌, ◌-◌, Bool, true, false, Option, none, some, List, [], ◌∷◌, ◌==◌,
  if◌then◌else◌, get_elem?, set, Run, ok, fault, ◌>>=◌, access,
}

module _ (T : Type 0) where
  pub record Vector : Type 0 where
    pub memory : List (Option T)
    pub size : ℕ
    pub capacity : ℕ

  -- How `emplace_back` ends: it returns, a copy in `reallocate` has thrown, or the new element has. Each
  -- leaves a vector, and the second what stood in the new memory when it was given back.
  pub data Outcome : Type 0 where
    done element_threw : Vector → Outcome
    copy_threw : Vector → (freed : List (Option T)) → Outcome

module _ {T : Type 0} where
  abbrev pub create : Vector T
  create = record { memory = []; size = 0; capacity = 0 }

  -- `::operator new` of that many slots
  abbrev pub raw : ℕ → List (Option T)
  raw zero = []
  raw (suc n) = none ∷ raw n

  -- `new (data + i) T(x)`, of the slot that is found there
  abbrev pub construct_over : List (Option T) → ℕ → T → Option (Option T) → Run (List (Option T))
  construct_over m i x none = fault
  construct_over m i x (some none) = ok (set m i (some x))
  construct_over m i x (some (some old)) = fault

  abbrev pub construct : List (Option T) → ℕ → T → Run (List (Option T))
  construct m i x = construct_over m i x (get_elem? m i)

  abbrev pub read : List (Option T) → ℕ → Run T
  read m i = do slot ← access (get_elem? m i); access slot

  -- `data[i].~T()`
  abbrev pub destroy : List (Option T) → ℕ → Run (List (Option T))
  destroy m i = do x ← read m i; ok (set m i none)

  -- a loop of destructors, `n` of them from index `i` on
  unfoldable pub destroy_from : List (Option T) → ℕ → ℕ → Run (List (Option T))
  destroy_from m i zero = ok m
  destroy_from m i (suc n) = destroy m i >>= λ r. destroy_from r (suc i) n

  abbrev pub clear : Vector T → Run (Vector T)
  clear v = do m ← destroy_from v.memory 0 v.size; ok (record v { memory = m; size = 0 })

  -- what is left after `::operator delete`
  abbrev pub deallocate : Vector T → Vector T
  deallocate v = record v { memory = []; capacity = 0 }

  -- The loop of `reallocate` from index `i` on, with the `catch`: whether it came through, and the new
  -- memory.
  unfoldable pub move_from :
      (ℕ → Bool) → List (Option T) → List (Option T) → ℕ → ℕ → Run (Bool × List (Option T))
  move_from throws old new i zero = ok (true, new)
  move_from throws old new i (suc n) = elim (throws i) [
    | true ↦ do freed ← destroy_from new 0 i; ok (false, freed)
    | false ↦ do x ← read old i; grown ← construct new i x; move_from throws old grown (suc i) n
  ]

  -- the end of `reallocate`, by an exception or when the loop is through
  abbrev pub take_new : Vector T → ℕ → Bool × List (Option T) → Run (Outcome T)
  take_new v new_cap (false, freed) = ok (copy_threw v freed)
  take_new v new_cap (true, m) = do
    cleared ← clear v
    ok (done (record (deallocate cleared) { memory = m; size = v.size; capacity = new_cap }))

  unfoldable pub reallocate : (ℕ → Bool) → Vector T → ℕ → Run (Outcome T)
  reallocate throws v new_cap =
      move_from throws v.memory (raw new_cap) 0 v.size >>= take_new v new_cap

  -- the end of `emplace_back`: the new object, in the vector that there is by then
  abbrev pub place : Bool → T → Outcome T → Run (Outcome T)
  place fails x (copy_threw v freed) = ok (copy_threw v freed)
  place fails x (element_threw v) = ok (element_threw v)
  place true x (done v) = ok (element_threw v)
  place false x (done v) = do
    m ← construct v.memory v.size x
    ok (done (record v { memory = m; size = suc v.size }))

  unfoldable pub emplace_back : (ℕ → Bool) → Bool → Vector T → T → Run (Outcome T)
  emplace_back throws fails v x =
      (if v.size == v.capacity
        then reallocate throws v (if v.capacity == 0 then 1 else v.capacity * 2)
        else ok (done v))
      >>= place fails x

  -- with `--size` done, if there is an element
  abbrev pub pop_at : Vector T → ℕ → Run (Vector T)
  pop_at v zero = ok v
  pop_at v (suc n) = do m ← destroy v.memory n; ok (record v { memory = m; size = n })

  abbrev pub pop_back : Vector T → Run (Vector T)
  pop_back v = pop_at v v.size

  -- the destructor
  unfoldable pub destruct : Vector T → Run (Vector T)
  destruct v = do cleared ← clear v; ok (deallocate cleared)
