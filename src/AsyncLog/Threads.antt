-- ===== src/AsyncLog/Threads.antt =====
-- buffer/async_buffer.cpp: threads in `write` at the same time. What a call does without the mutex, the
-- test for another file and the choice of its name, are steps of their own, as are the two parts
-- that it does with the mutex. Steps take effect in their order, which C++ does not promise for the
-- part without the mutex.
pub mod Alone
pub mod Race
pub mod Kept
mod Tests
use learning_c.Common.{
  ℕ, ◌%◌, ◌/◌, not, ◌&&◌, ◌||◌, Bool, true, false, Option, none, some, List, [], ◌∷◌, ◌==◌,
  if◌then◌else◌, get_elem?, set, Run, ok, ◌>>=◌,
}
use learning_c.AsyncLog.{BlockDeque, FileName, Now, Log, name_of, reopen, append_line, async_write}

-- the arguments of a call, the time that it reads, and whether its `fopen` succeeds
pub record Write : Type 0 where
  pub level : ℕ
  pub now : Now
  pub message : List ℕ
  pub opens : Bool

-- what a thread does next: the test at the top of `write`, the name of the new file, the change of
-- file, the line
pub data Place : Type 0 where
  testing naming appending : Write → Place
  reopening : Write → FileName → Place
  returned : Place

pub record Shared (Q : Type 0) : Type 0 where
  pub log : Log Q
  pub threads : List Place

-- a step of thread `i`, or a round of the writing thread
pub data Turn : Type 0 where
  turn : (i : ℕ) → Turn
  write_queued : Turn

module _ {Q : Type 0} where
  abbrev pub put : Shared Q → ℕ → Log Q → Place → Shared Q
  put s i l p = record { log = l; threads = set s.threads i p }

module _ {Q : Type 0} (D : BlockDeque Q) (max_lines : ℕ) where
  abbrev pub must_reopen : Log Q → Now → Bool
  must_reopen l now =
      not (l.today == now.day) || (not (l.line_count == 0) && l.line_count % max_lines == 0)

  -- the second test of the day, and what depends on it
  abbrev pub choose : Shared Q → ℕ → Write → Shared Q
  choose s i w =
      if s.log.today == w.now.day
      then put s i s.log (reopening w (name_of w.now (some (s.log.line_count / max_lines))))
      else put s i (record s.log { today = w.now.day; line_count = 0 })
          (reopening w (name_of w.now none))

  abbrev pub act : Shared Q → ℕ → Place → Run (Shared Q)
  act s i (testing w) =
      ok (put s i s.log (if must_reopen s.log w.now then naming w else appending w))
  act s i (naming w) = ok (choose s i w)
  act s i (reopening w name) = do l ← reopen s.log name w.opens; ok (put s i l (appending w))
  act s i (appending w) = do
    l ← append_line D max_lines s.log w.level w.now w.message
    ok (put s i l returned)
  act s i returned = ok s

  unfoldable pub step : Shared Q → Turn → Run (Shared Q)
  step s (turn i) = elim (get_elem? s.threads i) [ none ↦ ok s | some p ↦ act s i p ]
  step s write_queued = do l ← async_write D max_lines s.log; ok (record s { log = l })

  unfoldable pub run : Shared Q → List Turn → Run (Shared Q)
  run s [] = ok s
  run s (t ∷ ts) = step s t >>= λ r. run r ts
