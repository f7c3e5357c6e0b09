-- ===== src/AsyncLog/Threads/Race.antt =====
-- buffer/async_buffer.cpp: two threads that write first on a new day.
use learning_c.Common.{
  ℕ, suc, ◌/◌, ◌≡◌, refl, sym, ap, ◌∙◌, subst, true, false, none, some, List, [], ◌∷◌, ◌==◌,
  get_elem?, get_elem?-set_here, get_elem?-set_other, set, ok, ◌>>=◌, arith,
}
use learning_c.AsyncLog.{BlockDeque, FileName, Log, name_of}
use learning_c.AsyncLog.Ready.{Ready, reopen_total, append_line_total}
use learning_c.AsyncLog.Threads.{
  Write, testing, naming, reopening, appending, returned, Shared, Turn, turn, put, run,
}
use learning_c.AsyncLog.Threads.Alone.{turn_ok}

module _ {Q : Type 0} (D : BlockDeque Q) (max_lines : ℕ) (i j : ℕ) (apart : (i == j) ≡ false)
    (w v : Write) where
  -- Thread `i` does three steps after both have tested the day, and thread `j` then goes on.
  abbrev pub both_test : List Turn
  both_test = turn i ∷ turn j ∷ turn i ∷ turn i ∷ turn i ∷ turn j ∷ turn j ∷ turn j ∷ []

  -- a thread changes the file and adds its line
  abbrev change : ℕ → List Turn → List Turn
  change k es = turn k ∷ turn k ∷ es

  changes_file :
      (s : Shared Q) (k : ℕ) (x : Write) (name : FileName) (es : List Turn)
      → get_elem? s.threads k ≡ some (reopening x name)
      → Ready s.log
      → x.opens ≡ true
      → (t : Log Q) × (run D max_lines s (change k es)
          ≡ run D max_lines (put (put s k s.log (appending x)) k t returned) es)
        × Ready t
        × (t.file ≡ some name)
        × (t.line_count ≡ suc s.log.line_count)
        × (t.today ≡ s.log.today)
  changes_file s k x name es here ready opens =
      let l : Log Q = record s.log { file = some name } in
      let opened : Ready l = record { opened = (name, refl); has_queue = ready.has_queue } in
      let (t, appended, still, file, count, today) =
        append_line_total D max_lines l x.level x.now x.message opened in
      let m : Shared Q = put s k l (appending x) in
      let done : Shared Q = put (put s k s.log (appending x)) k t returned in
      (
        t,
        turn_ok D max_lines s m k (reopening x name) (turn k ∷ es) here
              (ground (arith, reopen_total s.log name ready, opens))
            ∙ turn_ok D max_lines m done k (appending x) es
                (get_elem?-set_here s.threads k (appending x) here)
                (ap (λ r. r >>= λ n. ok (put m k n returned)) appended),
        still,
        file,
        count,
        today,
      )

  module _ (s : Shared Q) (ready : Ready s.log) (mine : get_elem? s.threads i ≡ some (testing w))
      (yours : get_elem? s.threads j ≡ some (testing v)) (day : w.now.day ≡ v.now.day)
      (other_day : (s.log.today == w.now.day) ≡ false) (opens_i : w.opens ≡ true)
      (opens_j : v.opens ≡ true) where
    reversed : (j == i) ≡ false
    reversed = ground arith

    abbrev fresh : Log Q
    fresh = record s.log { today = w.now.day; line_count = 0 }

    fresh-Ready : Ready fresh
    fresh-Ready = record { opened = ready.opened; has_queue = ready.has_queue }

    abbrev tested : Shared Q
    tested = put (put s i s.log (naming w)) j s.log (naming v)

    abbrev named : Shared Q
    named = put tested i fresh (reopening w (name_of w.now none))

    yours_tests : get_elem? (set s.threads i (naming w)) j ≡ some (testing v)
    yours_tests = get_elem?-set_other s.threads i j (naming w) apart ∙ yours

    mine_names : get_elem? tested.threads i ≡ some (naming w)
    mine_names =
        get_elem?-set_other (set s.threads i (naming w)) j i (naming v) reversed
        ∙ get_elem?-set_here s.threads i (naming w) mine

    begins :
        (es : List Turn)
        → run D max_lines s (turn i ∷ turn j ∷ turn i ∷ es) ≡ run D max_lines named es
    begins es =
        turn_ok D max_lines s (put s i s.log (naming w)) i (testing w) (turn j ∷ turn i ∷ es) mine
          (ground (arith, other_day))
        ∙ turn_ok D max_lines (put s i s.log (naming w)) tested j (testing v) (turn i ∷ es)
            yours_tests (ground (arith, other_day, day))
        ∙ turn_ok D max_lines tested named i (naming w) es mine_names (ground (arith, other_day))

    -- the file that thread `j` takes
    abbrev pub part : FileName
    part = name_of v.now (some (1 / max_lines))

    abbrev pub SplitsDay : Type 0
    SplitsDay =
        (t : Shared Q) × (run D max_lines s both_test ≡ ok t)
        × (t.log.today ≡ v.now.day)
        × (t.log.line_count ≡ 2)
        × (t.log.file ≡ some part)

    ends :
        (t : Log Q) (u : Shared Q)
        → u ≡ put (put named i fresh (appending w)) i t returned
        → run D max_lines named (turn i ∷ turn i ∷ turn j ∷ turn j ∷ turn j ∷ [])
          ≡ run D max_lines u (turn j ∷ turn j ∷ turn j ∷ [])
        → Ready t
        → t.line_count ≡ 1
        → t.today ≡ w.now.day
        → SplitsDay
    unfolding run
    ends t u is ran still count today =
        let still_names : get_elem? u.threads j ≡ some (naming v) =
          ap (λ x. get_elem? x.threads j) is
          ∙ get_elem?-set_other (set named.threads i (appending w)) i j returned apart
          ∙ get_elem?-set_other named.threads i j (appending w) apart
          ∙ get_elem?-set_other tested.threads i j (reopening w (name_of w.now none)) apart
          ∙ get_elem?-set_here (set s.threads i (naming w)) j (naming v) yours_tests in
        let same : u.log ≡ t = ap (λ x. x.log) is in
        let ready_u : Ready u.log = subst Ready (sym same) still in
        let chosen : Shared Q = put u j u.log (reopening v part) in
        let (r, run_r, _, file, lines, day_r) =
          changes_file chosen j v part []
            (get_elem?-set_here u.threads j (reopening v part) still_names) ready_u opens_j in
        (
          put (put chosen j chosen.log (appending v)) j r returned,
          begins (turn i ∷ turn i ∷ turn j ∷ turn j ∷ turn j ∷ [])
              ∙ ran
              ∙ turn_ok D max_lines u chosen j (naming v) (turn j ∷ turn j ∷ []) still_names
                  (ground (arith, same, count, today, day))
              ∙ run_r,
          ground (arith, day_r, same, today, day),
          ground (arith, lines, same, count),
          file,
        )

    -- Two different threads call `write` on the same new day, on a log with an open file, and a queue
    -- if it is asynchronous. There is an order of their steps, in which both test the day before one
    -- of them changes it, after which the second line of the day has gone on to a file of another
    -- part, as if the first were full.
    pub race_splits_day : SplitsDay
    race_splits_day =
        let (t, ran, still, _, count, today) =
          changes_file named i w (name_of w.now none) (turn j ∷ turn j ∷ turn j ∷ [])
            (get_elem?-set_here tested.threads i (reopening w (name_of w.now none)) mine_names)
            fresh-Ready opens_i in
        ends t (put (put named i fresh (appending w)) i t returned) refl ran still count today
