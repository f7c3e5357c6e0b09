-- ===== src/SharedPtr/Race.antt =====
-- _ptr/shared_ptr.cpp: threads that each give up their pointer to one object at the same time. Each
-- access of the count, and each `delete`, is a step.
pub mod Freed
pub mod Twice
mod Tests
use learning_c.Common.{
  ℕ, zero, suc, Bool, true, false, Option, none, some, List, [], ◌∷◌, if◌then◌else◌, get_elem?, set,
  Run, ok, fault, ◌>>=◌, access, ℤ, pos, decrement, is_zero,
}

-- what a thread does next: `(*ref_count)--`, `*ref_count == 0`, `delete ptr`, `delete ref_count`
pub data Place : Type 0 where
  lowering testing deleting_object deleting_count released : Place

pub record State : Type 0 where
  pub object : Bool  -- not yet deleted
  pub count : Option ℤ
  pub threads : List Place

abbrev pub all_lowering : ℕ → List Place
all_lowering zero = []
all_lowering (suc n) = lowering ∷ all_lowering n

-- `n` pointers that share one object, each in a thread that is about to release it
abbrev pub start : ℕ → State
start n = record { object = true; count = some (pos n); threads = all_lowering n }

abbrev pub go : State → ℕ → Place → State
go s i p = record s { threads = set s.threads i p }

unfoldable pub next : State → ℕ → Option Place → Run State
next s i none = ok s
next s i (some lowering) = do
  n ← access s.count
  ok (record (go s i testing) { count = some (decrement n) })
next s i (some testing) = do
  n ← access s.count
  ok (go s i (if is_zero n then deleting_object else released))
next s i (some deleting_object) =
    if s.object then ok (record (go s i deleting_count) { object = false }) else fault
next s i (some deleting_count) = do
  n ← access s.count
  ok (record (go s i released) { count = none })
next s i (some released) = ok s

-- a step of thread `i`, and a schedule
unfoldable pub step : State → ℕ → Run State
step s i = next s i (get_elem? s.threads i)

unfoldable pub run : State → List ℕ → Run State
run s [] = ok s
run s (i ∷ is) = step s i >>= λ t. run t is
