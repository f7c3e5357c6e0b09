-- ===== src/DeadlockDemo.antt =====
-- deadlock/deadlock_test.cpp: threads that each lock two mutexes and unlock them again, with the hook
-- of deadlock/deadlock.cpp in `pthread_mutex_lock`. A mutex is its address. The parts of the hook, the
-- lock itself and each unlock are steps; a thread that waits for a mutex does nothing in its turn.
pub mod Owners
pub mod Stuck
pub mod Missed
mod Tests
use learning_c.Common.{
  ℕ, Bool, true, false, ◌&&◌, ◌||◌, Option, none, some, List, [], ◌∷◌, ◌==◌, if◌then◌else◌,
  get_elem?, set, update, Run, ok, ◌>>=◌,
}
use learning_c.Deadlock.Graph.{Pair, TaskGraph}
use learning_c.Deadlock.Locks.{lock_before, lock_after}

-- what a thread does next: `lock_before`, `pthread_mutex_lock_f` and `lock_after` for its first mutex
-- and, after the sleep, for its second, then both unlocks
pub data Place : Type 0 where
  calling_first acquiring_first recording_first : Place
  calling_second acquiring_second recording_second : Place
  unlocking_second unlocking_first finished : Place

pub record Thread : Type 0 where
  pub id : ℕ
  pub first : ℕ
  pub second : ℕ
  pub place : Place

-- `owners` is the state of the mutexes: the index of the thread that holds one.
pub record State : Type 0 where
  pub graph : TaskGraph
  pub owners : ℕ → Option ℕ
  pub threads : List Thread

abbrev pub go : State → ℕ → Thread → Place → State
go s i t p = record s { threads = set s.threads i (record t { place = p }) }

-- `pthread_mutex_lock_f`: it waits while the mutex is held, also by the thread itself
abbrev pub acquire : State → ℕ → Thread → ℕ → Place → Option ℕ → State
acquire s i t lock p none = record (go s i t p) { owners = update s.owners lock (some i) }
acquire s i t lock p (some j) = s

abbrev pub release : State → ℕ → Thread → ℕ → Place → State
release s i t lock p = record (go s i t p) { owners = update s.owners lock none }

abbrev pub act : Pair → State → ℕ → Thread → Place → Run State
act junk s i t calling_first = do
  g ← lock_before junk s.graph t.id t.first
  ok (record (go s i t acquiring_first) { graph = g })
act junk s i t acquiring_first = ok (acquire s i t t.first recording_first (s.owners t.first))
act junk s i t recording_first = do
  g ← lock_after junk s.graph t.id t.first
  ok (record (go s i t calling_second) { graph = g })
act junk s i t calling_second = do
  g ← lock_before junk s.graph t.id t.second
  ok (record (go s i t acquiring_second) { graph = g })
act junk s i t acquiring_second = ok (acquire s i t t.second recording_second (s.owners t.second))
act junk s i t recording_second = do
  g ← lock_after junk s.graph t.id t.second
  ok (record (go s i t unlocking_second) { graph = g })
act junk s i t unlocking_second = ok (release s i t t.second unlocking_first)
act junk s i t unlocking_first = ok (release s i t t.first finished)
act junk s i t finished = ok s

unfoldable pub step : Pair → State → ℕ → Run State
step junk s i = elim (get_elem? s.threads i) [ none ↦ ok s | some t ↦ act junk s i t t.place ]

unfoldable pub run : Pair → State → List ℕ → Run State
run junk s [] = ok s
run junk s (i ∷ is) = step junk s i >>= λ t. run junk t is

-- `main`: threads 0 and 1, with ids `a` and `b`, over the mutexes at `m` and `n`
abbrev pub demo : ℕ → ℕ → ℕ → ℕ → Place → Place → List Thread
demo a b m n p q =
    record { id = a; first = m; second = n; place = p }
    ∷ record { id = b; first = n; second = m; place = q }
    ∷ []

abbrev pub start : TaskGraph → ℕ → ℕ → ℕ → ℕ → State
start g a b m n = record {
  graph = g;
  owners = λ l. none;
  threads = demo a b m n calling_first calling_first;
}
