-- ===== src/Processes/Lines.antt =====
-- process/fork_wait.cpp and process/fork_exec.cpp: the lines of the child and of the parent.
use learning_c.Common.{ℕ, ◌≡◌, refl, ap, Option, none, some, List, [], ◌∷◌, ◌++◌, map}
use learning_c.Processes.{
  Line, listed, Action, say, wait, report, exec, exit, Status, Source, parent, child, report_of,
  program,
}

-- the child's lines of an output
abbrev pub by_child : List (Source × Line) → List Line
by_child [] = []
by_child ((parent, line) ∷ rest) = by_child rest
by_child ((child, line) ∷ rest) = line ∷ by_child rest

pub by_child-append :
    (xs ys : List (Source × Line)) → by_child (xs ++ ys) ≡ by_child xs ++ by_child ys
by_child-append [] ys = refl
by_child-append ((parent, line) ∷ xs) ys = by_child-append xs ys
by_child-append ((child, line) ∷ xs) ys = ap (λ l. line ∷ l) (by_child-append xs ys)

-- what the parent prints from here on, the child having ended
abbrev pub parent_lines : Status → List Action → List (Source × Line)
parent_lines s [] = []
parent_lines s (say line ∷ rest) = (parent, line) ∷ parent_lines s rest
parent_lines s (wait ∷ rest) = parent_lines s rest
parent_lines s (report ∷ rest) = (parent, report_of s) ∷ parent_lines s rest
parent_lines s (exec ∷ rest) = []
parent_lines s (exit code ∷ rest) = []

pub by_child-parent_lines : (s : Status) (acts : List Action) → by_child (parent_lines s acts) ≡ []
by_child-parent_lines s [] = refl
by_child-parent_lines s (say line ∷ rest) = by_child-parent_lines s rest
by_child-parent_lines s (wait ∷ rest) = by_child-parent_lines s rest
by_child-parent_lines s (report ∷ rest) = by_child-parent_lines s rest
by_child-parent_lines s (exec ∷ rest) = refl
by_child-parent_lines s (exit code ∷ rest) = refl

abbrev pub IsSay : Action → Type 0
IsSay (say line) = Unit
IsSay wait = ⊥
IsSay report = ⊥
IsSay exec = ⊥
IsSay (exit code) = ⊥

module _ (answer : Option (List ℕ × ℕ)) where
  -- what the child prints when it is not killed
  abbrev pub child_lines : List Action → List Line
  child_lines [] = []
  child_lines (say line ∷ rest) = line ∷ child_lines rest
  child_lines (wait ∷ rest) = child_lines rest
  child_lines (report ∷ rest) = child_lines rest
  child_lines (exec ∷ rest) = elim answer [
    | none ↦ child_lines rest
    | some p ↦ map (λ e. listed e) p.0
  ]
  child_lines (exit code ∷ rest) = []

  pub child_lines-program :
      (entries : List ℕ) (code : ℕ)
      → child_lines (program (entries, code)) ≡ map (λ e. listed e) entries
  child_lines-program [] code = refl
  child_lines-program (e ∷ entries) code = ap (λ l. listed e ∷ l) (child_lines-program entries code)
