-- ===== src/TryLock.antt =====
-- mutex/try_lock.cpp: threads that try for 100 milliseconds to lock one `timed_mutex`, and that keep
-- it for a second. The clock is in milliseconds. A thread that has the mutex or waits for it goes on
-- when it has its turn; as C++ allows, an attempt may also fail for no reason.
pub mod Apart
mod Tests
use learning_c.Common.{
  ℕ, zero, suc, ◌+◌, Option, none, some, List, [], ◌∷◌, leb, get_elem?, set, if◌then◌else◌,
}

-- where a thread is in `thread_function`: at the top, in `try_lock_for`, in `sleep_for` with the
-- mutex, or returned
pub data Thread : Type 0 where
  created finished : Thread
  trying : (deadline : ℕ) → Thread
  sleeping : (until : ℕ) → Thread

-- `acquired` and `refused` are the lines that are printed, newest first: the id and the clock.
pub record Program : Type 0 where
  pub threads : List Thread
  pub owner : Option ℕ
  pub clock : ℕ
  pub acquired : List (ℕ × ℕ)
  pub refused : List (ℕ × ℕ)

pub data Event : Type 0 where
  turn fail : ℕ → Event
  tick : Event

abbrev pub all_created : ℕ → List Thread
all_created zero = []
all_created (suc n) = created ∷ all_created n

-- `main`, whose array has five threads
abbrev pub start : ℕ → Program
start n = record { threads = all_created n; owner = none; clock = 0; acquired = []; refused = [] }

abbrev pub go : Program → ℕ → Thread → Program
go p i t = record p { threads = set p.threads i t }

abbrev pub refuse : Program → ℕ → Program
refuse p i = record (go p i finished) { refused = (suc i, p.clock) ∷ p.refused }

abbrev pub acquire : Program → ℕ → Program
acquire p i = record (go p i (sleeping (p.clock + 1000))) {
  owner = some i;
  acquired = (suc i, p.clock) ∷ p.acquired;
}

-- the destructor of `unique_lock` at the end of the function
abbrev pub release : Program → ℕ → Program
release p i = record (go p i finished) { owner = none }

abbrev pub try_lock_for : Program → ℕ → ℕ → Option ℕ → Program
try_lock_for p i deadline none = acquire p i
try_lock_for p i deadline (some j) = if leb deadline p.clock then refuse p i else p

abbrev pub thread_function : Program → ℕ → Option Thread → Program
thread_function p i none = p
thread_function p i (some created) = go p i (trying (p.clock + 100))
thread_function p i (some (trying deadline)) = try_lock_for p i deadline p.owner
thread_function p i (some (sleeping until)) = if leb until p.clock then release p i else p
thread_function p i (some finished) = p

abbrev pub fails : Program → ℕ → Option Thread → Program
fails p i (some (trying deadline)) = refuse p i
fails p i _ = p

unfoldable pub step : Program → Event → Program
step p (turn i) = thread_function p i (get_elem? p.threads i)
step p (fail i) = fails p i (get_elem? p.threads i)
step p tick = record p { clock = suc p.clock }

unfoldable pub run : Program → List Event → Program
run p [] = p
run p (e ∷ es) = run (step p e) es
