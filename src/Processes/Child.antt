-- ===== src/Processes/Child.antt =====
-- process/fork_wait.cpp and process/fork_exec.cpp: the turns of the child.
use mathlib.Core.List.{append_assoc}
use learning_c.Common.{
  ℕ, ◌≡◌, ◌≢◌, refl, sym, ap, ◌∙◌, inl, inr, ◌⊎◌, Option, none, some, List, [], ◌∷◌, ◌++◌, map,
  arith,
}
use learning_c.Processes.{
  Line, listed, Action, say, wait, report, exec, exit, Status, no_child, alive, killed, exited,
  child, World, Event, parent_turn, child_turn, kill, print, program, exec_child, child_step,
  kill_child, step, run,
}
use learning_c.Processes.Lines.{by_child, by_child-append, child_lines, child_lines-program}
use learning_c.Processes.Waiting.{Before, Inv, parent-Inv}

module _ (answer : Option (List ℕ × ℕ)) (post : List Action) (all : List Line) where
  -- While the child is alive the parent has still to wait.
  still-Before : (w : World) → w.status ≡ alive → Inv answer post all w → Before answer post all w
  still-Before w a inv = elim inv.phase [ inl b ↦ b | inr (ended, _, _) ↦ absurd (ended a) ]

  lines_left :
      (w : World)
      → w.status ≡ alive
      → Inv answer post all w
      → by_child w.output ++ child_lines answer w.of_child ≡ all
  lines_left w a inv = elim inv.lines [ inl k ↦ absurd (ground (arith, a, k)) | inr e ↦ e ]

  -- the child goes on, and what it has still to print with what it has printed is the same
  goes_on :
      (w : World) (rest : List Action)
      → w.status ≡ alive
      → child_lines answer rest ≡ child_lines answer w.of_child
      → Inv answer post all w
      → Inv answer post all (record w { of_child = rest })
  goes_on w rest a same inv = record {
    phase = inv.phase;
    forked = inv.forked;
    lines = inr (ap (λ l. by_child w.output ++ l) same ∙ lines_left w a inv);
    gone = λ code e. absurd (ground (arith, a, e));
  }

  child_say-Inv :
      (w : World) (line : Line) (rest : List Action)
      → w.status ≡ alive
      → w.of_child ≡ say line ∷ rest
      → Inv answer post all w
      → Inv answer post all (print (record w { of_child = rest }) child line)
  child_say-Inv w line rest a e inv = record {
    phase = inl (still-Before w a inv);
    forked = inv.forked;
    lines = inr (
        ap (λ l. l ++ child_lines answer rest) (by_child-append w.output ((child, line) ∷ []))
        ∙ append_assoc (by_child w.output) (line ∷ []) (child_lines answer rest)
        ∙ ap (λ acts. by_child w.output ++ child_lines answer acts) (sym e)
        ∙ lines_left w a inv);
    gone = λ code k. absurd (ground (arith, a, k));
  }

  ends-Inv :
      (w : World) (s : Status)
      → w.status ≡ alive
      → s ≢ no_child
      → ((s ≡ killed) ⊎ (child_lines answer w.of_child ≡ []))
      → Inv answer post all w
      → Inv answer post all (record w { of_child = []; status = s })
  ends-Inv w s a some_child why inv = record {
    phase = inl (still-Before w a inv);
    forked = some_child;
    lines = elim why [
      | inl k ↦ inl k
      | inr none_left ↦ inr (ap (λ l. by_child w.output ++ l) (sym none_left) ∙ lines_left w a inv)
    ];
    gone = λ code e. refl;
  }

  exec-Inv :
      (w : World) (rest : List Action) (o : Option (List ℕ × ℕ))
      → answer ≡ o
      → w.status ≡ alive
      → w.of_child ≡ exec ∷ rest
      → Inv answer post all w
      → Inv answer post all (exec_child w rest o)
  exec-Inv w rest none o a e inv =
      let left : child_lines answer (exec ∷ rest) ≡ child_lines answer rest = ground (arith, o) in
      goes_on w rest a (sym left ∙ ap (child_lines answer) (sym e)) inv
  exec-Inv w rest (some (entries, code)) o a e inv =
      let left : child_lines answer (exec ∷ rest) ≡ map (λ e. listed e) entries =
        ground (arith, o) in
      goes_on w (program (entries, code)) a
        (child_lines-program answer entries code ∙ sym left ∙ ap (child_lines answer) (sym e)) inv

  child-Inv :
      (w : World) (acts : List Action) (s : Status)
      → w.of_child ≡ acts
      → w.status ≡ s
      → Inv answer post all w
      → Inv answer post all (child_step answer w acts s)
  child-Inv w acts no_child e a inv = inv
  child-Inv w acts killed e a inv = inv
  child-Inv w acts (exited code) e a inv = inv
  child-Inv w [] alive e a inv = inv
  child-Inv w (say line ∷ rest) alive e a inv = child_say-Inv w line rest a e inv
  child-Inv w (wait ∷ rest) alive e a inv = goes_on w rest a (ap (child_lines answer) (sym e)) inv
  child-Inv w (report ∷ rest) alive e a inv = goes_on w rest a (ap (child_lines answer) (sym e)) inv
  child-Inv w (exec ∷ rest) alive e a inv = exec-Inv w rest answer refl a e inv
  child-Inv w (exit code ∷ rest) alive e a inv =
      ends-Inv w (exited code) a (λ k. absurd (ground arith)) (inr (ap (child_lines answer) e)) inv

  kill-Inv :
      (w : World) (s : Status)
      → w.status ≡ s
      → Inv answer post all w
      → Inv answer post all (kill_child answer w s)
  kill-Inv w no_child a inv = inv
  kill-Inv w killed a inv = inv
  kill-Inv w (exited code) a inv = inv
  kill-Inv w alive a inv = ends-Inv w killed a (λ k. absurd (ground arith)) (inl refl) inv

  step-Inv : (w : World) (e : Event) → Inv answer post all w → Inv answer post all (step answer w e)
  unfolding step
  step-Inv w parent_turn inv = parent-Inv answer post all w w.of_parent refl inv
  step-Inv w child_turn inv = child-Inv w w.of_child w.status refl refl inv
  step-Inv w kill inv = kill-Inv w w.status refl inv

  pub run-Inv :
      (es : List Event) (w : World) → Inv answer post all w → Inv answer post all (run answer w es)
  unfolding run
  run-Inv [] w inv = inv
  run-Inv (e ∷ es) w inv = run-Inv es (step answer w e) (step-Inv w e inv)
