-- ===== src/AsyncLog/Threads/Alone.antt =====
-- buffer/async_buffer.cpp: a call of `write` that no other thread interrupts.
use learning_c.Common.{
  ℕ, ◌%◌, ◌/◌, ◌≡◌, refl, sym, ap, ◌∙◌, inl, inr, not, ◌&&◌, true, false, none, some, List, [], ◌∷◌,
  ◌==◌, get_elem?, get_elem?-set_here, set-set, Run, ok, ◌>>=◌, >>=-eq-ok, arith, Bool-cases,
}
use learning_c.AsyncLog.{BlockDeque, FileName, Log, name_of, reopen, rotate, append_line, write}
use learning_c.AsyncLog.Threads.{
  Write, Place, testing, naming, reopening, appending, returned, Shared, Turn, turn, put,
  must_reopen, choose, act, step, run,
}

module _ {Q : Type 0} (D : BlockDeque Q) (max_lines : ℕ) where
  pub step_at :
      (s : Shared Q) (i : ℕ) (p : Place) (es : List Turn)
      → get_elem? s.threads i ≡ some p
      → run D max_lines s (turn i ∷ es) ≡ (act D max_lines s i p >>= λ t. run D max_lines t es)
  unfolding run step
  step_at s i p es h =
      ap
        (λ o.
          elim o as (λ _. Run (Shared Q)) [ none ↦ ok s | some p ↦ act D max_lines s i p ] >>= λ t.
          run D max_lines t es)
        h

  -- one turn that succeeds
  pub turn_ok :
      (s t : Shared Q) (i : ℕ) (p : Place) (es : List Turn)
      → get_elem? s.threads i ≡ some p
      → act D max_lines s i p ≡ ok t
      → run D max_lines s (turn i ∷ es) ≡ run D max_lines t es
  turn_ok s t i p es h e = step_at s i p es h ∙ ap (λ r. r >>= λ t. run D max_lines t es) e

  module _ (s : Shared Q) (i : ℕ) (w : Write)
      (here : get_elem? s.threads i ≡ some (testing w)) where
    -- the thread at a later place
    abbrev later : Log Q → Place → Shared Q
    later l p = put s i l p

    there : (l : Log Q) (p : Place) → get_elem? (later l p).threads i ≡ some p
    there l p = get_elem?-set_here s.threads i p here

    moves_on : (l m : Log Q) (p q : Place) → put (later l p) i m q ≡ later m q
    moves_on l m p q = ap (λ ts. record { log = m; threads = ts }) (set-set s.threads i p q)

    abbrev four : List Turn
    four = turn i ∷ turn i ∷ turn i ∷ turn i ∷ []

    last_part :
        (l t : Log Q) (es : List Turn)
        → append_line D max_lines l w.level w.now w.message ≡ ok t
        → run D max_lines (later l (appending w)) (turn i ∷ es)
          ≡ run D max_lines (later t returned) es
    last_part l t es h =
        turn_ok (later l (appending w)) (later t returned) i (appending w) es
          (there l (appending w))
          (ap (λ r. r >>= λ m. ok (put (later l (appending w)) i m returned)) h
            ∙ ap ok (moves_on l t (appending w) returned))

    idle :
        (t : Log Q) (es : List Turn)
        → run D max_lines (later t returned) (turn i ∷ es) ≡ run D max_lines (later t returned) es
    idle t es = turn_ok (later t returned) (later t returned) i returned es (there t returned) refl

    -- no other file: two turns, and two that do nothing
    same_file :
        (t : Log Q)
        → must_reopen D max_lines s.log w.now ≡ false
        → append_line D max_lines s.log w.level w.now w.message ≡ ok t
        → run D max_lines s four ≡ ok (later t returned)
    unfolding run
    same_file t stays h =
        turn_ok s (later s.log (appending w)) i (testing w) (turn i ∷ turn i ∷ turn i ∷ []) here
          (ground (arith, stays))
        ∙ last_part s.log t (turn i ∷ turn i ∷ []) h
        ∙ idle t (turn i ∷ [])
        ∙ idle t []

    -- another file: four turns
    other_file :
        (l r t : Log Q) (name : FileName)
        → must_reopen D max_lines s.log w.now ≡ true
        → choose D max_lines (later s.log (naming w)) i w
          ≡ put (later s.log (naming w)) i l (reopening w name)
        → reopen l name w.opens ≡ ok r
        → append_line D max_lines r w.level w.now w.message ≡ ok t
        → run D max_lines s four ≡ ok (later t returned)
    unfolding run
    other_file l r t name changes chosen opened h =
        turn_ok s (later s.log (naming w)) i (testing w) (turn i ∷ turn i ∷ turn i ∷ []) here
          (ground (arith, changes))
        ∙ turn_ok (later s.log (naming w)) (later l (reopening w name)) i (naming w)
            (turn i ∷ turn i ∷ []) (there s.log (naming w))
            (ap ok (chosen ∙ moves_on s.log l (naming w) (reopening w name)))
        ∙ turn_ok (later l (reopening w name)) (later r (appending w)) i (reopening w name)
            (turn i ∷ []) (there l (reopening w name))
            (ap (λ o. o >>= λ m. ok (put (later l (reopening w name)) i m (appending w))) opened
              ∙ ap ok (moves_on l r (reopening w name) (appending w)))
        ∙ last_part r t [] h

    -- Four turns of a thread at the top of `write`, with no step of another thread between them, do
    -- to the log what the call does as a whole, where that returns, and the thread has returned.
    pub alone-write :
        (t : Log Q)
        → write D max_lines s.log w.level w.now w.message w.opens ≡ ok t
        → run D max_lines s (turn i ∷ turn i ∷ turn i ∷ turn i ∷ []) ≡ ok (put s i t returned)
    unfolding write rotate
    alone-write t h =
        let (r, a, b) = >>=-eq-ok (rotate D max_lines s.log w.now w.opens) _ h in
        elim (Bool-cases (s.log.today == w.now.day)) [
          | inr other ↦
              other_file (record s.log { today = w.now.day; line_count = 0 }) r t
                (name_of w.now none) (ground (arith, other)) (ground (arith, other))
                (ground (arith, other)) b
          | inl same_day ↦
              elim (Bool-cases (not (s.log.line_count == 0) && s.log.line_count % max_lines == 0)) [
                | inl enough ↦
                    other_file s.log r t (name_of w.now (some (s.log.line_count / max_lines)))
                      (ground (arith, same_day, enough)) (ground (arith, same_day))
                      (ground (arith, same_day, enough)) b
                | inr few ↦
                    let unchanged : r ≡ s.log = ground (arith, same_day, few) in
                    same_file t (ground (arith, same_day, few)) (
                      sym (ap (λ l. append_line D max_lines l w.level w.now w.message) unchanged)
                      ∙ b)
              ]
        ]
