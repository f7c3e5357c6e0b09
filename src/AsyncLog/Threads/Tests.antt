-- ===== src/AsyncLog/Threads/Tests.antt =====
-- buffer/async_buffer.cpp: two threads in `write` on a log whose queue holds two lines.
use mathlib.Core.List.Permᴰ as Permᴰ
use learning_c.Common.{ℕ, refl, true, List, [], ◌∷◌, ◌++◌, Run, ok, fault, out_of_fuel}
use learning_c.AsyncLog.{Now, Log, create, write}
use learning_c.AsyncLog.Tests.{two_lines, open_log, open_log-Ready}
use learning_c.AsyncLog.Threads.{Write, Shared, Turn, write_queued, testing, run}
use learning_c.AsyncLog.Threads.Race.{SplitsDay, both_test, race_splits_day}

abbrev tuesday : Now
tuesday = record { year = 2024; month = 7; day = 2; stamp = 84 ∷ [] }

abbrev one : Write
one = record { level = 1; now = tuesday; message = 1 ∷ []; opens = true }

abbrev two : Write
two = record { level = 0; now = tuesday; message = 2 ∷ []; opens = true }

abbrev shared : Shared (List (List ℕ))
shared = record { log = open_log; threads = testing one ∷ testing two ∷ [] }

abbrev result : Run (Shared (List (List ℕ))) → Shared (List (List ℕ))
result (ok s) = s
result fault = shared
result out_of_fuel = shared

abbrev schedule : List Turn
schedule = both_test two_lines 50000 0 1 refl one two ++ write_queued ∷ []

abbrev ended : Shared (List (List ℕ))
ended = result (run two_lines 50000 shared schedule)

abbrev log_of : Run (Log (List (List ℕ))) → Log (List (List ℕ))
log_of (ok l) = l
log_of fault = create
log_of out_of_fuel = create

abbrev written : Log (List (List ℕ))
written = log_of (write two_lines 50000 open_log 1 tuesday (1 ∷ []) true)

race_splits_day_example :
    SplitsDay two_lines 50000 0 1 refl one two shared open_log-Ready refl refl refl refl refl refl
race_splits_day_example =
    race_splits_day two_lines 50000 0 1 refl one two shared open_log-Ready refl refl refl refl refl
      refl
