-- ===== src/ThreadPool.antt =====
-- ThreadPool/ThreadPool_adv.cpp: the class `ThreadPool` as a step function over a schedule. A step
-- is what happens under one hold of `mtx`, one run of a task, or one notification; `cv.wait` with a
-- predicate tests it under the lock, and goes to sleep in the same step where it fails. A call of
-- `addTask`, `setStop` or the destructor changes the state in one step and owes its notification,
-- which is a later step of its own. `submitted`, `started`, `finished` and `late` record history.
pub mod Moves
pub mod Counts
pub mod Queue
pub mod Wakeups
pub mod Drain
pub mod Shutdown
mod Tests
use learning_c.Common.{
  ℕ, zero, suc, ◌+◌, Bool, true, false, Option, none, some, List, [], ◌∷◌, ◌++◌, map, ◌==◌,
  if◌then◌else◌, get_elem?, set,
}

-- Where a worker stands: about to test the predicate of `cv.wait`, asleep in it, running a task
-- with the lock released, or returned.
pub data Worker (T : Type 0) : Type 0 where
  checking asleep exited : Worker T
  running : T → Worker T

pub record Pool (T : Type 0) : Type 0 where
  pub task_queue : List T
  pub stop_flag : Bool
  pub threads : List (Worker T)
  pub notify_one_owed : ℕ
  pub notify_all_owed : ℕ
  pub submitted : List T
  pub started : List T
  pub finished : List T
  pub late : ℕ  -- tasks submitted after a worker has returned

pub data Event (T : Type 0) : Type 0 where
  turn spurious_wakeup notify_one : (i : ℕ) → Event T
  notify_none notify_all : Event T
  add_task : T → Event T
  set_stop : Bool → Event T

module _ {T : Type 0} where
  -- the constructor
  abbrev pub workers : ℕ → List (Worker T)
  workers zero = []
  workers (suc n) = checking ∷ workers n

  pub create : ℕ → Pool T
  create threadnums = record {
    task_queue = [];
    stop_flag = false;
    threads = workers threadnums;
    notify_one_owed = 0;
    notify_all_owed = 0;
    submitted = [];
    started = [];
    finished = [];
    late = 0;
  }

  abbrev pub with_worker : Pool T → ℕ → Worker T → Pool T
  with_worker p i w = record p { threads = set p.threads i w }

  -- the test of the predicate and what follows it, up to the release of the lock
  abbrev pub check_queue : Pool T → ℕ → List T → Bool → Pool T
  check_queue p i [] false = with_worker p i asleep
  check_queue p i [] true = with_worker p i exited
  check_queue p i (task ∷ rest) b = record (with_worker p i (running task)) {
    task_queue = rest;
    started = p.started ++ task ∷ [];
  }

  -- a step of worker `i` in its loop; a worker that sleeps or has returned has none
  abbrev pub work : Pool T → ℕ → Option (Worker T) → Option (Pool T)
  work p i none = none
  work p i (some checking) = some (check_queue p i p.task_queue p.stop_flag)
  work p i (some asleep) = none
  work p i (some exited) = none
  work p i (some (running task)) =
      some (record (with_worker p i checking) { finished = p.finished ++ task ∷ [] })

  abbrev pub wake : Pool T → ℕ → Option (Worker T) → Option (Pool T)
  wake p i none = none
  wake p i (some checking) = none
  wake p i (some asleep) = some (with_worker p i checking)
  wake p i (some exited) = none
  wake p i (some (running task)) = none

  abbrev pub woken : Worker T → Worker T
  woken checking = checking
  woken asleep = checking
  woken exited = exited
  woken (running task) = running task

  abbrev pub asleep_one : Worker T → ℕ
  asleep_one checking = 0
  asleep_one asleep = 1
  asleep_one exited = 0
  asleep_one (running task) = 0

  abbrev pub exited_one : Worker T → ℕ
  exited_one checking = 0
  exited_one asleep = 0
  exited_one exited = 1
  exited_one (running task) = 0

  -- how many workers there are of a kind
  unfoldable pub total : (Worker T → ℕ) → List (Worker T) → ℕ
  total f [] = 0
  total f (w ∷ ws) = f w + total f ws

  -- The step of an event, or `none` where it cannot happen.
  pub step : Pool T → Event T → Option (Pool T)
  step p (turn i) = work p i (get_elem? p.threads i)
  step p (spurious_wakeup i) = wake p i (get_elem? p.threads i)
  step p (notify_one i) = elim p.notify_one_owed [
    | zero ↦ none
    | suc n ↦ wake (record p { notify_one_owed = n }) i (get_elem? p.threads i)
  ]
  step p notify_none = elim p.notify_one_owed [
    | zero ↦ none
    | suc n ↦
        if total asleep_one p.threads == 0 then some (record p { notify_one_owed = n }) else none
  ]
  step p notify_all = elim p.notify_all_owed [
    | zero ↦ none
    | suc n ↦ some (record p { notify_all_owed = n; threads = map woken p.threads })
  ]
  step p (add_task task) = some (record p {
    task_queue = p.task_queue ++ task ∷ [];
    notify_one_owed = suc p.notify_one_owed;
    submitted = p.submitted ++ task ∷ [];
    late = if total exited_one p.threads == 0 then p.late else suc p.late;
  })
  step p (set_stop flag) =
      some (record p { stop_flag = flag; notify_all_owed = suc p.notify_all_owed })

  pub run : Pool T → List (Event T) → Option (Pool T)
  run p [] = some p
  run p (e ∷ es) = elim (step p e) [ none ↦ none | some q ↦ run q es ]
