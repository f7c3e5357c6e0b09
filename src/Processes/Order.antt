-- ===== src/Processes/Order.antt =====
-- process/fork_wait.cpp and process/fork_exec.cpp: what has been printed when the parent has ended.
use mathlib.Core.List.{append-nil}
use learning_c.Common.{
  ℕ, ◌≡◌, ◌≢◌, refl, sym, ap, ◌∙◌, inl, inr, ◌⊎◌, Option, none, some, true, List, [], ◌∷◌, ◌++◌,
  map, arith,
}
use learning_c.Processes.{
  Line, listed, Action, say, wait, report, Status, no_child, alive, killed, exited, Source, World,
  Event, run, fork_wait, fork_exec, parent_finished, child_started, child_pids, child_finished,
  parent_continues, created, waiting, about_to_run, exec_failed, child_done, waiting_command,
}
use learning_c.Processes.Lines.{
  by_child, by_child-append, parent_lines, by_child-parent_lines, child_lines,
}
use learning_c.Processes.Waiting.{Inv}
use learning_c.Processes.Child.{run-Inv}

module _ (answer : Option (List ℕ × ℕ)) (post : List Action) (all : List Line) where
  -- The parent's last lines come after all others, and all of the child's are among the others.
  abbrev pub ParentLast : World → Type 0
  ParentLast w =
      (front : List (Source × Line)) × (w.output ≡ front ++ parent_lines w.status post)
      × ((w.status ≡ killed) ⊎ (by_child front ≡ all))

  not_empty : (todo : List Action) → [] ≢ todo ++ wait ∷ post
  not_empty [] h = absurd (ground arith)
  not_empty (a ∷ todo) h = absurd (ground arith)

  child_done_lem :
      (w : World) (s : Status)
      → w.status ≡ s
      → w.status ≢ alive
      → Inv answer post all w
      → (w.status ≡ killed) ⊎ (by_child w.output ≡ all)
  child_done_lem w no_child e over inv = absurd (inv.forked e)
  child_done_lem w alive e over inv = absurd (over e)
  child_done_lem w killed e over inv = inl e
  child_done_lem w (exited code) e over inv = elim inv.lines [
    | inl k ↦ inl k
    | inr l ↦ inr (
        sym (append-nil (by_child w.output))
        ∙ ap (λ acts. by_child w.output ++ child_lines answer acts) (sym (inv.gone code e))
        ∙ l)
  ]

  ended : (w : World) → Inv answer post all w → w.of_parent ≡ [] → ParentLast w
  ended w inv done = elim inv.phase [
    | inl (todo, _, shape) ↦ absurd (not_empty todo (sym done ∙ shape))
    | inr (over, front, shape) ↦
        let whole : w.output ≡ front ++ parent_lines w.status post =
          sym (append-nil w.output)
          ∙ ap (λ acts. w.output ++ parent_lines w.status acts) (sym done)
          ∙ shape in
        let same : by_child w.output ≡ by_child front =
          ap by_child whole
          ∙ by_child-append front (parent_lines w.status post)
          ∙ ap (λ l. by_child front ++ l) (by_child-parent_lines w.status post)
          ∙ append-nil (by_child front) in
        (
          front,
          whole,
          elim (child_done_lem w w.status refl over inv) [
            | inl k ↦ inl k
            | inr e ↦ inr (sym same ∙ e)
          ],
        )
  ]

  pub run-ParentLast :
      (es : List Event) (w : World)
      → Inv answer post all w
      → (run answer w es).of_parent ≡ []
      → ParentLast (run answer w es)
  run-ParentLast es w inv done = ended (run answer w es) (run-Inv answer post all es w inv) done

-- Along every schedule of fork_wait.cpp after a `fork` that succeeded, when the parent has ended: its
-- last two lines, on how the child ended and that it has finished itself, come after all others, and
-- the child, unless it was killed, has printed its three lines before them.
pub fork_wait-ParentLast :
    (answer : Option (List ℕ × ℕ)) (pid child_pid : ℕ) (es : List Event)
    → (run answer (fork_wait pid child_pid true) es).of_parent ≡ []
    → ParentLast answer
        (report ∷ say parent_finished ∷ [])
        (child_started ∷ child_pids child_pid pid ∷ child_finished ∷ [])
        (run answer (fork_wait pid child_pid true) es)
fork_wait-ParentLast answer pid child_pid es done =
    run-ParentLast answer (report ∷ say parent_finished ∷ [])
      (child_started ∷ child_pids child_pid pid ∷ child_finished ∷ []) es
      (fork_wait pid child_pid true)
      (record {
        phase = inl (
          say parent_continues ∷ say (created child_pid) ∷ say waiting ∷ [],
          (tt, (tt, (tt, tt))),
          refl,
        );
        forked = λ e. ground arith;
        lines = inr refl;
        gone = λ code e. absurd (ground arith);
      })
      done

-- what the child of fork_exec.cpp prints: the lines of the command, or that it could not be run
abbrev pub exec_lines : ℕ → Option (List ℕ × ℕ) → List Line
exec_lines child_pid none = about_to_run child_pid ∷ exec_failed ∷ []
exec_lines child_pid (some p) = about_to_run child_pid ∷ map (λ e. listed e) p.0

exec_lines_lem :
    (answer : Option (List ℕ × ℕ)) (pid child_pid : ℕ)
    → child_lines answer (fork_exec pid child_pid true).of_child ≡ exec_lines child_pid answer
exec_lines_lem none pid child_pid = refl
exec_lines_lem (some p) pid child_pid = refl

-- Along every schedule of fork_exec.cpp after a `fork` that succeeded, when the parent has ended: its
-- last line comes after all others, and the child, unless it was killed, has printed before it the
-- lines of the command where `exec` succeeds, and otherwise that it failed, never both.
pub fork_exec-ParentLast :
    (answer : Option (List ℕ × ℕ)) (pid child_pid : ℕ) (es : List Event)
    → (run answer (fork_exec pid child_pid true) es).of_parent ≡ []
    → ParentLast answer
        (say child_done ∷ [])
        (exec_lines child_pid answer)
        (run answer (fork_exec pid child_pid true) es)
fork_exec-ParentLast answer pid child_pid es done =
    run-ParentLast answer (say child_done ∷ []) (exec_lines child_pid answer) es
      (fork_exec pid child_pid true)
      (record {
        phase = inl (say waiting_command ∷ [], (tt, tt), refl);
        forked = λ e. ground arith;
        lines = inr (exec_lines_lem answer pid child_pid);
        gone = λ code e. absurd (ground arith);
      })
      done
