-- ===== src/Processes/Tests.antt =====
-- process/fork.cpp, process/fork_wait.cpp and process/fork_exec.cpp: some schedules.
use learning_c.Common.{ℕ, ◌≡◌, refl, true, Option, none, some, List, [], ◌∷◌}
use learning_c.Processes.{
  say, report, parent_finished, child_started, child_pids, child_finished, child_here, parent_pids,
  parent, child, Event, parent_turn, child_turn, step, run, fork_wait, fork_only,
}
use learning_c.Processes.Order.{ParentLast, fork_wait-ParentLast}

abbrev nothing : Option (List ℕ × ℕ)
nothing = none

-- the parent gets to its wait, and then the child runs
abbrev turns : List Event
turns =
    parent_turn ∷ parent_turn ∷ parent_turn ∷ parent_turn ∷ child_turn ∷ child_turn ∷ child_turn
    ∷ child_turn ∷ parent_turn ∷ parent_turn ∷ parent_turn ∷ []

fork_wait-ParentLast_example :
    ParentLast nothing
      (report ∷ say parent_finished ∷ [])
      (child_started ∷ child_pids 12 11 ∷ child_finished ∷ [])
      (run nothing (fork_wait 11 12 true) turns)
unfolding run step
fork_wait-ParentLast_example = fork_wait-ParentLast nothing 11 12 turns refl

abbrev two_entries : Option (List ℕ × ℕ)
two_entries = some (7 ∷ 8 ∷ [], 0)

-- Without a wait both orders happen.
either_first :
    ((run nothing (fork_only 11 12 true) (parent_turn ∷ child_turn ∷ [])).output
      ≡ (parent, parent_pids 11 12) ∷ (child, child_here 12) ∷ [])
    × ((run nothing (fork_only 11 12 true) (child_turn ∷ parent_turn ∷ [])).output
        ≡ (child, child_here 12) ∷ (parent, parent_pids 11 12) ∷ [])
unfolding run step
either_first = (refl, refl)
