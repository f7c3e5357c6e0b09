-- ===== src/AsyncLog/Tests.antt =====
-- buffer/async_buffer.cpp: a log whose queue is a list that holds two lines.
use mathlib.Core.List.{Perm}
use mathlib.Core.List.Permᴰ as Permᴰ
use learning_c.Common.{
  ℕ, ◌≡◌, ◌≢◌, refl, inr, false, true, Option, none, some, List, [], ◌∷◌, ◌++◌, length, leb, Run,
  ok, fault, out_of_fuel, arith,
}
use learning_c.AsyncLog.{
  BlockDeque, Now, name_of, line_of, Log, Op, initialise, write_line, write_queued, create, write,
  run, destroy,
}
use learning_c.AsyncLog.Delivery.{lines}
use learning_c.AsyncLog.Ready.{Ready}
use learning_c.AsyncLog.Destroy.{destroy_total}
use learning_c.AsyncLog.Month.{write-other_month}

abbrev pub pop_list : List (List ℕ) → Option (List ℕ × List (List ℕ))
pop_list [] = none
pop_list (line ∷ rest) = some (line, rest)

pub pop_list-eq-some :
    (q r : List (List ℕ)) (line : List ℕ) → pop_list q ≡ some (line, r) → q ≡ line ∷ r
pop_list-eq-some [] r line h = absurd (ground arith)
pop_list-eq-some (x ∷ q) r line h = ground (arith, h)

pub pop_list-eq-none : (q : List (List ℕ)) → pop_list q ≡ none → q ≡ []
pop_list-eq-none [] h = refl
pop_list-eq-none (x ∷ q) h = absurd (ground arith)

abbrev pub two_lines : BlockDeque (List (List ℕ))
two_lines = record {
  new = [];
  push_back = λ q line. q ++ line ∷ [];
  pop = pop_list;
  full = λ q. leb 2 (length q);
  contents = λ q. q;
  contents-new = refl;
  contents-push_back = λ q line. refl;
  pop-eq-some = pop_list-eq-some;
  pop-eq-none = pop_list-eq-none;
}

abbrev pub monday : Now
monday = record { year = 2024; month = 7; day = 1; stamp = 77 ∷ [] }

abbrev result : Run (Log (List (List ℕ))) → Log (List (List ℕ))
result (ok l) = l
result fault = create
result out_of_fuel = create

-- three lines: the third finds the queue full and comes first in the file
abbrev three_writes : List Op
three_writes =
    initialise 1 1024 monday true true
    ∷ write_line 0 monday (1 ∷ []) true
    ∷ write_line 1 monday (2 ∷ []) true
    ∷ write_line 2 monday (3 ∷ []) true
    ∷ write_queued
    ∷ []

abbrev busy : Log (List (List ℕ))
busy = result (run two_lines 50000 create three_writes)

abbrev pub open_log : Log (List (List ℕ))
open_log = record {
  line_count = 1;
  is_open = true;
  is_async = true;
  level = 1;
  today = 1;
  deque = some ((7 ∷ []) ∷ []);
  file = some (record { year = 2024; month = 7; day = 1; part = none });
  output = [];
  submitted = (7 ∷ []) ∷ [];
}

pub open_log-Ready : Ready open_log
open_log-Ready = record { opened = (_, refl); has_queue = inr (_, refl) }

destroy_total_example :
    (t : Log (List (List ℕ))) × (destroy two_lines 50000 open_log ≡ ok t)
    × (t.file ≡ none)
    × Perm t.submitted (lines t.output)
destroy_total_example =
    destroy_total two_lines 50000 open_log open_log-Ready (Permᴰ.refl ((7 ∷ []) ∷ []))

-- the first of July, and of August
abbrev july : Now
july = record { year = 2024; month = 7; day = 1; stamp = 7 ∷ [] }

abbrev august : Now
august = record { year = 2024; month = 8; day = 1; stamp = 8 ∷ [] }

abbrev july_log : Log (List (List ℕ))
july_log = record open_log { is_async = false; today = 1 }

write-other_month_example :
    (t : Log (List (List ℕ))) × (write two_lines 50000 july_log 1 august (9 ∷ []) true ≡ ok t)
    × (t.output ≡ july_log.output ++ (name_of july none, line_of 1 august (9 ∷ [])) ∷ [])
    × (t.file ≡ some (name_of july none))
    × (name_of july none ≢ name_of august none)
write-other_month_example =
    write-other_month two_lines 50000 july_log 1 july august (9 ∷ []) true refl refl refl refl
      (omega arith) (inr (omega arith))
