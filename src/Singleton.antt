-- ===== src/Singleton.antt =====
-- singleton/singleton. cpp: threads in `getInstance`, which checks, locks and checks again. Each read
-- or write of `instance`, each `lock` and each `unlock` is one step, and steps take effect in their
-- order. A pointer is the number of its allocation, and null is `none`.
pub mod Once
mod Tests
use learning_c.Common.{ℕ, zero, suc, Bool, Option, none, some, List, [], ◌∷◌, get_elem?, set}

-- what a thread does next: test `instance`, lock, test it again, write it, unlock, read it
pub data Place : Type 0 where
  testing locking testing_again creating unlocking reading : Place
  returned : Option ℕ → Place

pub record State : Type 0 where
  pub instance_ : Option ℕ
  pub holder : Option ℕ
  pub created : ℕ
  pub threads : List Place

abbrev pub all_testing : ℕ → List Place
all_testing zero = []
all_testing (suc n) = testing ∷ all_testing n

abbrev pub start : ℕ → State
start n = record { instance_ = none; holder = none; created = 0; threads = all_testing n }

abbrev pub go : State → ℕ → Place → State
go s i p = record s { threads = set s.threads i p }

-- where a test of the pointer leads
abbrev pub test : Option ℕ → Place → Place → Place
test none null found = null
test (some p) null found = found

-- `mtx.lock()` waits while the mutex is held.
abbrev pub lock : State → ℕ → Option ℕ → Option State
lock s i none = some (record (go s i testing_again) { holder = some i })
lock s i (some j) = none

abbrev pub next : State → ℕ → Option Place → Option State
next s i none = none
next s i (some testing) = some (go s i (test s.instance_ locking reading))
next s i (some locking) = lock s i s.holder
next s i (some testing_again) = some (go s i (test s.instance_ creating unlocking))
next s i (some creating) =
    some (record (go s i unlocking) { instance_ = some s.created; created = suc s.created })
next s i (some unlocking) = some (record (go s i reading) { holder = none })
next s i (some reading) = some (go s i (returned s.instance_))
next s i (some (returned p)) = none

-- a step of thread `i`
unfoldable pub step : State → ℕ → Option State
step s i = next s i (get_elem? s.threads i)

unfoldable pub run : State → List ℕ → Option State
run s [] = some s
run s (i ∷ is) = elim (step s i) [ none ↦ none | some t ↦ run t is ]
