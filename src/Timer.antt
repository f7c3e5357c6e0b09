-- ===== src/Timer.antt =====
-- boost/timer.cpp: timed jobs in a priority queue, the `ThreadPool` whose workers run them, and the
-- two loops of `main`. The priority queue is boost's and a parameter: a record of its operations.
-- Times are whole seconds of the program's own clock. Each stretch of a worker's loop that holds
-- `mtx` is one step, but the return of `wait`'s predicate and the release of the mutex are two, since
-- `stop` is written without it. A thread that waits for the mutex, for its wake-up or for its time
-- does nothing in its turn. `started` and `enqueued` record history, newest first.
pub mod Queue
pub mod Workers
pub mod Jobs
pub mod Shutdown
pub mod Stale
pub mod Loops
mod Tests
use learning_c.Common.{
  ℕ, zero, suc, ◌+◌, ◌-◌, ◌/◌, Bool, true, false, not, ◌&&◌, ◌||◌, Option, none, some, List, [],
  ◌∷◌, map, ◌==◌, leb, if◌then◌else◌, get_elem?, set, Run, ok, fault, ◌>>=◌, ℤ, pos, negsuc, ◌+ℤ◌,
  negate, ltbℤ,
}
use learning_c.PriorityQueue.{PriorityQueue}

-- A callback is only ever called: `C` names what it does.
pub record TimeEvent (C : Type 0) : Type 0 where
  pub time : ℤ
  pub callback : C

module _ {C : Type 0} where
  -- `operator<`: the later event is the smaller one, so that the top of a max-heap is the earliest
  abbrev pub less : TimeEvent C → TimeEvent C → Bool
  less a b = ltbℤ b.time a.time

-- `current_time()`: the first call sets the start; `readings` are the clock's, in nanoseconds.
abbrev pub billion : ℕ
billion = 1000000000

unfoldable pub current_time : Option ℕ → ℕ → ℕ → ℕ × Option ℕ
current_time none first second = ((second - first) / billion, some first)
current_time (some start_time) first second = ((second - start_time) / billion, some start_time)

-- What a worker does: about to lock and test; about to sleep in `wait`, the mutex still held; in
-- `wait`; about to compute how long to sleep, from the clock reading `now` and a reference into the
-- queue after `changes` changes; asleep until a time; running a callback; returned.
pub data Worker (C : Type 0) : Type 0 where
  checking blocking waiting exited : Worker C
  computing : (now changes : ℕ) → Worker C
  sleeping : (until : ℕ) → Worker C
  running : TimeEvent C → Worker C

-- A job that was started, with the clock and the adjustment of the test.
pub record Start (C : Type 0) : Type 0 where
  pub event : TimeEvent C
  pub now : ℕ
  pub adjustment : ℤ

pub record Pool (C Q : Type 0) : Type 0 where
  pub workers : List (Worker C)
  pub time_q : Q
  pub stop : Bool
  pub time_adjustment : ℤ
  pub clock : ℕ
  pub changes : ℕ  -- of the queue, each of which ends the life of a reference to its top
  pub notify_one_owed : ℕ
  pub notify_all_owed : ℕ
  pub started : List (Start C)
  pub enqueued : List (TimeEvent C)

pub data Event (C : Type 0) : Type 0 where
  turn spurious_wakeup notify_one : (i : ℕ) → Event C
  notify_all set_stop tick : Event C
  enqueue : TimeEvent C → Event C
  adjust_timing : ℤ → Event C

abbrev pub seconds : ℤ → ℕ
seconds (pos n) = n
seconds (negsuc n) = 0

module _ {C : Type 0} where
  abbrev pub is_waiting : Worker C → Bool
  is_waiting waiting = true
  is_waiting checking = false
  is_waiting blocking = false
  is_waiting exited = false
  is_waiting (computing now changes) = false
  is_waiting (sleeping until) = false
  is_waiting (running e) = false

  abbrev pub is_blocking : Worker C → Bool
  is_blocking blocking = true
  is_blocking waiting = false
  is_blocking checking = false
  is_blocking exited = false
  is_blocking (computing now changes) = false
  is_blocking (sleeping until) = false
  is_blocking (running e) = false

  abbrev pub any : (Worker C → Bool) → List (Worker C) → Bool
  any test [] = false
  any test (w ∷ ws) = test w || any test ws

  abbrev pub woken : Worker C → Worker C
  woken w = if is_waiting w then checking else w

  abbrev pub idle : ℕ → List (Worker C)
  idle zero = []
  idle (suc n) = checking ∷ idle n

module _ {C Q : Type 0} (H : PriorityQueue (TimeEvent C) Q) where
  -- the constructor and `start(n)`
  abbrev pub start : ℕ → Pool C Q
  start n = record {
    workers = idle n;
    time_q = H.new;
    stop = false;
    time_adjustment = pos 0;
    clock = 0;
    changes = 0;
    notify_one_owed = 0;
    notify_all_owed = 0;
    started = [];
    enqueued = [];
  }

  abbrev pub with_worker : Pool C Q → ℕ → Worker C → Pool C Q
  with_worker p i w = record p { workers = set p.workers i w }

  -- the job at the top runs, when its time has passed, or the worker computes how long to sleep
  abbrev pub take_or_sleep : Pool C Q → ℕ → TimeEvent C → Bool → Pool C Q
  take_or_sleep p i e true = record (with_worker p i (running e)) {
    time_q = H.pop p.time_q;
    changes = suc p.changes;
    started = record { event = e; now = p.clock; adjustment = p.time_adjustment } ∷ p.started;
  }
  take_or_sleep p i e false = with_worker p i (computing p.clock p.changes)

  -- the predicate of `wait`, and what follows it
  abbrev pub test_queue : Pool C Q → ℕ → Option (TimeEvent C) → Bool → Pool C Q
  test_queue p i none false = with_worker p i blocking
  test_queue p i none true = with_worker p i exited
  test_queue p i (some e) b = take_or_sleep p i e (ltbℤ (e.time +ℤ p.time_adjustment) (pos p.clock))

  -- `sleep_for((nextEvent.time + timeAdjustment.load()) - now)`, where `nextEvent` must still live
  abbrev pub compute : Pool C Q → ℕ → ℕ → ℕ → Option (TimeEvent C) → Run (Pool C Q)
  compute p i now changes none = fault
  compute p i now changes (some e) =
      if changes == p.changes
      then ok (
          with_worker p i
            (sleeping (p.clock + seconds ((e.time +ℤ p.time_adjustment) +ℤ negate (pos now)))))
      else fault

  abbrev pub work : Pool C Q → ℕ → Option (Worker C) → Run (Pool C Q)
  work p i none = ok p
  work p i (some checking) =
      if any is_blocking p.workers then ok p else ok (test_queue p i (H.top p.time_q) p.stop)
  work p i (some blocking) = ok (with_worker p i waiting)
  work p i (some waiting) = ok p
  work p i (some exited) = ok p
  work p i (some (computing now changes)) = compute p i now changes (H.top p.time_q)
  work p i (some (sleeping until)) = ok (if leb until p.clock then with_worker p i checking else p)
  work p i (some (running e)) = ok (with_worker p i checking)

  abbrev pub wake : Pool C Q → ℕ → Option (Worker C) → Pool C Q
  wake p i none = p
  wake p i (some w) = with_worker p i (woken w)

  abbrev pub waits : Option (Worker C) → Bool
  waits none = false
  waits (some w) = is_waiting w

  -- A notification that is owed wakes the thread `i`, which waits, or nobody, when nobody waits.
  abbrev pub deliver : Pool C Q → ℕ → ℕ → Pool C Q
  deliver p i zero = p
  deliver p i (suc n) =
      if waits (get_elem? p.workers i)
      then record (with_worker p i checking) { notify_one_owed = n }
      else (if any is_waiting p.workers then p else record p { notify_one_owed = n })

  abbrev pub deliver_all : Pool C Q → ℕ → Pool C Q
  deliver_all p zero = p
  deliver_all p (suc n) = record p { notify_all_owed = n; workers = map woken p.workers }

  -- `enqueue`, which waits while the mutex is held
  abbrev pub add : Pool C Q → TimeEvent C → Pool C Q
  add p e = if any is_blocking p.workers then p else record p {
    time_q = H.push e p.time_q;
    changes = suc p.changes;
    notify_one_owed = suc p.notify_one_owed;
    enqueued = e ∷ p.enqueued;
  }

  unfoldable pub step : Pool C Q → Event C → Run (Pool C Q)
  step p (turn i) = work p i (get_elem? p.workers i)
  step p (spurious_wakeup i) = ok (wake p i (get_elem? p.workers i))
  step p (notify_one i) = ok (deliver p i p.notify_one_owed)
  step p notify_all = ok (deliver_all p p.notify_all_owed)
  step p set_stop = ok (record p { stop = true; notify_all_owed = suc p.notify_all_owed })
  step p tick = ok (record p { clock = suc p.clock })
  step p (enqueue e) = ok (add p e)
  step p (adjust_timing adjustment) = ok (record p { time_adjustment = adjustment })

  unfoldable pub run : Pool C Q → List (Event C) → Run (Pool C Q)
  run p [] = ok p
  run p (e ∷ es) = step p e >>= λ q. run q es
