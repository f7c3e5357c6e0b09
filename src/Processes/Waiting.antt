-- ===== src/Processes/Waiting.antt =====
-- process/fork_wait.cpp and process/fork_exec.cpp: the turns of the parent.
use mathlib.Core.List.{append_assoc, append-nil}
use learning_c.Common.{
  ℕ, ◌≡◌, ◌≢◌, refl, sym, ap, ◌∙◌, subst, inl, inr, ◌⊎◌, Option, List, [], ◌∷◌, ◌++◌, All, arith,
}
use learning_c.Processes.{
  Line, Action, say, wait, report, exec, exit, Status, no_child, alive, killed, exited, Source,
  parent, World, print, report_of, wait_for, parent_step,
}
use learning_c.Processes.Lines.{by_child, by_child-append, parent_lines, IsSay, child_lines}

module _ (answer : Option (List ℕ × ℕ)) (post : List Action) (all : List Line) where
  -- The parent has still to wait.
  abbrev pub Before : World → Type 0
  Before w = (todo : List Action) × All IsSay todo × (w.of_parent ≡ todo ++ wait ∷ post)

  -- The child has ended, and the parent goes through what follows the wait.
  abbrev pub After : World → Type 0
  After w =
      (w.status ≢ alive)
      × (front : List (Source × Line)) × (w.output ++ parent_lines w.status w.of_parent
          ≡ front ++ parent_lines w.status post)

  pub record Inv (w : World) : Type 0 where
    pub phase : Before w ⊎ After w
    pub forked : w.status ≢ no_child
    pub lines : (w.status ≡ killed) ⊎ (by_child w.output ++ child_lines answer w.of_child ≡ all)
    pub gone : (code : ℕ) → w.status ≡ exited code → w.of_child ≡ []

  -- the parent prints a line
  by_parent :
      (w : World) (line : Line) (rest : List Action)
      → (w.status ≡ killed) ⊎ (by_child w.output ++ child_lines answer w.of_child ≡ all)
      → (w.status ≡ killed)
        ⊎ (by_child (w.output ++ (parent, line) ∷ []) ++ child_lines answer w.of_child ≡ all)
  by_parent w line rest (inl k) = inl k
  by_parent w line rest (inr e) = inr (
      ap (λ l. l ++ child_lines answer w.of_child)
        (by_child-append w.output ((parent, line) ∷ []) ∙ append-nil (by_child w.output))
      ∙ e)

  say-Inv :
      (w : World) (line : Line) (rest : List Action)
      → w.of_parent ≡ say line ∷ rest
      → Inv w
      → Inv (print (record w { of_parent = rest }) parent line)
  say-Inv w line rest e inv = record {
    phase = elim inv.phase [
      | inl ([], says, shape) ↦ absurd (ground (arith, e, shape))
      | inl (a ∷ todo, says, shape) ↦ inl (todo, says.1, ground (arith, e, shape))
      | inr (ended, front, shape) ↦ inr (
        ended,
        front,
        append_assoc w.output ((parent, line) ∷ []) (parent_lines w.status rest)
            ∙ ap (λ acts. w.output ++ parent_lines w.status acts) (sym e)
            ∙ shape,
      )
    ];
    forked = inv.forked;
    lines = by_parent w line rest inv.lines;
    gone = inv.gone;
  }

  report-Inv :
      (w : World) (rest : List Action)
      → w.of_parent ≡ report ∷ rest
      → Inv w
      → Inv (print (record w { of_parent = rest }) parent (report_of w.status))
  report-Inv w rest e inv = record {
    phase = elim inv.phase [
      | inl ([], says, shape) ↦ absurd (ground (arith, e, shape))
      | inl (a ∷ todo, says, shape) ↦
          let first : report ≡ a = ground (arith, e, shape) in
          absurd (subst IsSay (sym first) says.0)
      | inr (ended, front, shape) ↦ inr (
        ended,
        front,
        append_assoc w.output ((parent, report_of w.status) ∷ []) (parent_lines w.status rest)
            ∙ ap (λ acts. w.output ++ parent_lines w.status acts) (sym e)
            ∙ shape,
      )
    ];
    forked = inv.forked;
    lines = by_parent w (report_of w.status) rest inv.lines;
    gone = inv.gone;
  }

  -- the parent gets past its wait
  past :
      (w : World) (rest : List Action)
      → w.of_parent ≡ wait ∷ rest
      → w.status ≢ alive
      → Inv w
      → Inv (record w { of_parent = rest })
  past w rest e ended inv = record {
    phase = elim inv.phase [
      | inl ([], says, shape) ↦
          let same : rest ≡ post = ground (arith, e, shape) in
          inr (ended, w.output, ap (λ acts. w.output ++ parent_lines w.status acts) same)
      | inl (a ∷ todo, says, shape) ↦
          let first : wait ≡ a = ground (arith, e, shape) in absurd (subst IsSay (sym first) says.0)
      | inr (_, front, shape) ↦
          inr (ended, front, ap (λ acts. w.output ++ parent_lines w.status acts) (sym e) ∙ shape)
    ];
    forked = inv.forked;
    lines = inv.lines;
    gone = inv.gone;
  }

  wait-Inv :
      (w : World) (rest : List Action) (s : Status)
      → w.status ≡ s
      → w.of_parent ≡ wait ∷ rest
      → Inv w
      → Inv (wait_for w rest s)
  wait-Inv w rest no_child s e inv = past w rest e (λ a. absurd (ground (arith, s, a))) inv
  wait-Inv w rest alive s e inv = inv
  wait-Inv w rest killed s e inv = past w rest e (λ a. absurd (ground (arith, s, a))) inv
  wait-Inv w rest (exited code) s e inv = past w rest e (λ a. absurd (ground (arith, s, a))) inv

  -- the parent leaves at once, which only happens after its wait
  exit-Inv :
      (w : World) (code : ℕ) (rest : List Action)
      → w.of_parent ≡ exit code ∷ rest
      → Inv w
      → Inv (record w { of_parent = [] })
  exit-Inv w code rest e inv = record {
    phase = elim inv.phase [
      | inl ([], says, shape) ↦ absurd (ground (arith, e, shape))
      | inl (a ∷ todo, says, shape) ↦
          let first : exit code ≡ a = ground (arith, e, shape) in
          absurd (subst IsSay (sym first) says.0)
      | inr (ended, front, shape) ↦
          inr (ended, front, ap (λ acts. w.output ++ parent_lines w.status acts) (sym e) ∙ shape)
    ];
    forked = inv.forked;
    lines = inv.lines;
    gone = inv.gone;
  }

  pub parent-Inv :
      (w : World) (acts : List Action) → w.of_parent ≡ acts → Inv w → Inv (parent_step w acts)
  parent-Inv w [] e inv = inv
  parent-Inv w (say line ∷ rest) e inv = say-Inv w line rest e inv
  parent-Inv w (wait ∷ rest) e inv = wait-Inv w rest w.status refl e inv
  parent-Inv w (report ∷ rest) e inv = report-Inv w rest e inv
  parent-Inv w (exec ∷ rest) e inv = inv
  parent-Inv w (exit code ∷ rest) e inv = exit-Inv w code rest e inv
