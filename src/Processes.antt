-- ===== src/Processes.antt =====
-- process/fork.cpp, process/fork_wait.cpp and process/fork_exec.cpp: a parent and a child after
-- `fork`, as two lists of actions that take turns in any order. What they print, each line flushed by
-- `endl`, goes to one output. A sleep only lets time pass and is no action. `main` up to `fork` is the
-- output at the start. The child may be killed at any time.
pub mod Lines
pub mod Waiting
pub mod Child
pub mod Order
mod Tests
use learning_c.Common.{ℕ, Bool, true, false, Option, none, some, List, [], ◌∷◌, ◌++◌, map}

-- the lines, each with the numbers in it
pub data Line : Type 0 where
  started : (pid : ℕ) → Line
  fork_failed child_started child_finished parent_continues waiting abnormal parent_finished : Line
  child_pids parent_pids : (pid other : ℕ) → Line
  created child_here about_to_run : (pid : ℕ) → Line
  exited_with : (code : ℕ) → Line
  listed : (entry : ℕ) → Line
  exec_failed waiting_command child_done : Line

-- `report` prints a line that depends on the status of the child.
pub data Action : Type 0 where
  say : Line → Action
  wait report exec : Action
  exit : (code : ℕ) → Action

pub data Status : Type 0 where
  no_child alive killed : Status
  exited : (code : ℕ) → Status

pub data Source : Type 0 where
  parent child : Source

pub record World : Type 0 where
  pub of_parent : List Action
  pub of_child : List Action
  pub status : Status
  pub output : List (Source × Line)

pub data Event : Type 0 where
  parent_turn child_turn kill : Event

abbrev pub print : World → Source → Line → World
print w by line = record w { output = w.output ++ (by, line) ∷ [] }

-- the line after `wait(&status)`
abbrev pub report_of : Status → Line
report_of no_child = abnormal
report_of alive = abnormal
report_of killed = abnormal
report_of (exited code) = exited_with code

abbrev pub wait_for : World → List Action → Status → World
wait_for w rest alive = w
wait_for w rest no_child = record w { of_parent = rest }
wait_for w rest killed = record w { of_parent = rest }
wait_for w rest (exited code) = record w { of_parent = rest }

abbrev pub parent_step : World → List Action → World
parent_step w [] = w
parent_step w (say line ∷ rest) = print (record w { of_parent = rest }) parent line
parent_step w (wait ∷ rest) = wait_for w rest w.status
parent_step w (report ∷ rest) = print (record w { of_parent = rest }) parent (report_of w.status)
parent_step w (exec ∷ rest) = w
parent_step w (exit code ∷ rest) = record w { of_parent = [] }

-- The program that `exec` runs prints its lines and exits; it takes the place of what follows.
abbrev pub program : List ℕ × ℕ → List Action
program (entries, code) = map (λ e. say (listed e)) entries ++ exit code ∷ []

abbrev pub exec_child : World → List Action → Option (List ℕ × ℕ) → World
exec_child w rest none = record w { of_child = rest }
exec_child w rest (some p) = record w { of_child = program p }

module _ (answer : Option (List ℕ × ℕ)) where
  abbrev pub child_step : World → List Action → Status → World
  child_step w actions no_child = w
  child_step w actions killed = w
  child_step w actions (exited code) = w
  child_step w [] alive = w
  child_step w (say line ∷ rest) alive = print (record w { of_child = rest }) child line
  child_step w (wait ∷ rest) alive = record w { of_child = rest }
  child_step w (report ∷ rest) alive = record w { of_child = rest }
  child_step w (exec ∷ rest) alive = exec_child w rest answer
  child_step w (exit code ∷ rest) alive = record w { of_child = []; status = exited code }

  abbrev pub kill_child : World → Status → World
  kill_child w no_child = w
  kill_child w killed = w
  kill_child w (exited code) = w
  kill_child w alive = record w { of_child = []; status = killed }

  unfoldable pub step : World → Event → World
  step w parent_turn = parent_step w w.of_parent
  step w child_turn = child_step w w.of_child w.status
  step w kill = kill_child w w.status

  unfoldable pub run : World → List Event → World
  run w [] = w
  run w (e ∷ es) = run (step w e) es

-- The programs: the world after `fork`, which has failed or not, for the ids of parent and child.
module _ (pid child_pid : ℕ) where
  abbrev pub fork_wait : Bool → World
  fork_wait false = record {
    of_parent = say fork_failed ∷ exit 1 ∷ [];
    of_child = [];
    status = no_child;
    output = (parent, started pid) ∷ [];
  }
  fork_wait true = record {
    of_parent =
        say parent_continues
        ∷ say (created child_pid)
        ∷ say waiting
        ∷ wait
        ∷ report
        ∷ say parent_finished
        ∷ [];
    of_child =
        say child_started ∷ say (child_pids child_pid pid) ∷ say child_finished ∷ exit 0 ∷ [];
    status = alive;
    output = (parent, started pid) ∷ [];
  }

  abbrev pub fork_exec : Bool → World
  fork_exec false = record {
    of_parent = say fork_failed ∷ exit 1 ∷ [];
    of_child = [];
    status = no_child;
    output = (parent, started pid) ∷ [];
  }
  fork_exec true = record {
    of_parent = say waiting_command ∷ wait ∷ say child_done ∷ [];
    of_child = say (about_to_run child_pid) ∷ exec ∷ say exec_failed ∷ exit 1 ∷ [];
    status = alive;
    output = (parent, started pid) ∷ [];
  }

  abbrev pub fork_only : Bool → World
  fork_only false = record {
    of_parent = say fork_failed ∷ exit 1 ∷ [];
    of_child = [];
    status = no_child;
    output = [];
  }
  fork_only true = record {
    of_parent = say (parent_pids pid child_pid) ∷ [];
    of_child = say (child_here child_pid) ∷ exit 0 ∷ [];
    status = alive;
    output = [];
  }
