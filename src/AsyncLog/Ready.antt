-- ===== src/AsyncLog/Ready.antt =====
-- buffer/async_buffer.cpp, `write` of a log whose file is open.
use learning_c.Common.{
  ℕ, suc, ◌%◌, ◌/◌, ◌≡◌, ◌⊎◌, refl, inl, inr, not, ◌&&◌, Bool, true, false, Option, none, some,
  List, [], ◌∷◌, ◌++◌, ◌==◌, if◌then◌else◌, Run, ok, arith, Bool-cases,
}
use learning_c.AsyncLog.{
  BlockDeque, FileName, Now, Log, name_of, line_of, flush, put_line, reopen, rotate, deliver,
  append_line, write,
}
use learning_c.AsyncLog.Delivery.{lines}

module _ {Q : Type 0} where
  -- A file is open, and there is a queue if the log is asynchronous.
  pub record Ready (l : Log Q) : Type 0 where
    pub opened : (name : FileName) × (l.file ≡ some name)
    pub has_queue : (l.is_async ≡ false) ⊎ ((q : Q) × (l.deque ≡ some q))

  pub flush_total : (l : Log Q) → Ready l → flush l ≡ ok l
  flush_total l r = elim r.has_queue [
    | inl sync ↦ ground (arith, sync)
    | inr (q, e) ↦ elim (Bool-cases l.is_async) [
      | inl async ↦ ground (arith, e, async)
      | inr sync ↦ ground (arith, sync)
    ]
  ]

  pub reopen_total :
      (l : Log Q) (name : FileName)
      → Ready l
      → reopen l name true ≡ ok (record l { file = some name })
  reopen_total l name r = let (old, e) = r.opened in ground (arith, flush_total l r, e)

module _ {Q : Type 0} (D : BlockDeque Q) (max_lines : ℕ) where
  -- the file that a write goes to, and the number of lines before it
  abbrev pub target : Log Q → Now → FileName → FileName × ℕ
  target l now old =
      if l.today == now.day
      then (
        (if not (l.line_count == 0) && l.line_count % max_lines == 0
            then name_of now (some (l.line_count / max_lines))
            else old),
        l.line_count,
      )
      else (name_of now none, 0)

  rotate_total :
      (l : Log Q) (now : Now) (old : FileName)
      → Ready l
      → l.file ≡ some old
      → rotate D max_lines l now true
        ≡ ok (record l {
          today = now.day;
          line_count = (target l now old).1;
          file = some (target l now old).0;
        })
  unfolding rotate
  rotate_total l now old r e = elim (Bool-cases (l.today == now.day)) [
    | inr other ↦
        let r' : Ready (record l { today = now.day; line_count = 0 }) = record {
          opened = r.opened;
          has_queue = r.has_queue;
        } in
        ground (
          arith,
          other,
          reopen_total (record l { today = now.day; line_count = 0 }) (name_of now none) r',
        )
    | inl same_day ↦ elim (Bool-cases (not (l.line_count == 0) && l.line_count % max_lines == 0)) [
      | inl enough ↦ ground (
        arith,
        same_day,
        enough,
        reopen_total l (name_of now (some (l.line_count / max_lines))) r,
      )
      | inr few ↦ ground (arith, same_day, few, e)
    ]
  ]

  -- What a delivery leaves.
  abbrev Delivered : Log Q → Run (Log Q) → Type 0
  Delivered l result =
      (t : Log Q) × (result ≡ ok t)
      × Ready t
      × (t.file ≡ l.file)
      × (t.line_count ≡ l.line_count)
      × (t.today ≡ l.today)

  put_line_total : (l : Log Q) (line : List ℕ) → Ready l → Delivered l (put_line l line)
  put_line_total l line r =
      let (name, e) = r.opened in
      let t : Log Q = record l { output = l.output ++ (name, line) ∷ [] } in
      (
        t,
        ground (arith, e),
        record { opened = r.opened; has_queue = r.has_queue },
        refl,
        refl,
        refl,
      )

  deliver_total :
      (l : Log Q) (line : List ℕ) (b : Bool) (d : Option Q)
      → Ready l
      → Delivered l (deliver D max_lines l line b d)
  deliver_total l line false d r = put_line_total l line r
  deliver_total l line true none r = put_line_total l line r
  deliver_total l line true (some q) r = elim (Bool-cases (D.full q)) [
    | inl full ↦
        let (t, run, kept, file, count, today) = put_line_total l line r in
        (t, ground (arith, full, run), kept, file, count, today)
    | inr room ↦
        let t : Log Q = record l { deque = some (D.push_back q line) } in
        (
          t,
          ground (arith, room),
          record { opened = r.opened; has_queue = inr (D.push_back q line, refl) },
          refl,
          refl,
          refl,
        )
  ]

  pub append_line_total :
      (l : Log Q) (level : ℕ) (now : Now) (message : List ℕ)
      → Ready l
      → (t : Log Q) × (append_line D max_lines l level now message ≡ ok t)
        × Ready t
        × (t.file ≡ l.file)
        × (t.line_count ≡ suc l.line_count)
        × (t.today ≡ l.today)
  unfolding append_line
  append_line_total l level now message r =
      let line = line_of level now message in
      let m : Log Q = record l {
        line_count = suc l.line_count;
        submitted = l.submitted ++ line ∷ [];
      } in
      let ready : Ready m = record { opened = r.opened; has_queue = r.has_queue } in
      deliver_total m line l.is_async l.deque ready

  -- A write on a log with an open file, and with a queue if it is asynchronous, returns if the file
  -- it may have to open opens, leaves the log so, and its line counts for the file that `target` names.
  pub write_total :
      (l : Log Q) (level : ℕ) (now : Now) (message : List ℕ) (old : FileName)
      → Ready l
      → l.file ≡ some old
      → (t : Log Q) × (write D max_lines l level now message true ≡ ok t)
        × Ready t
        × (t.file ≡ some (target l now old).0)
        × (t.line_count ≡ suc (target l now old).1)
  unfolding write append_line
  write_total l level now message old r e =
      let line = line_of level now message in
      let (name, count) = target l now old in
      let m : Log Q = record l {
        today = now.day;
        line_count = suc count;
        file = some name;
        submitted = l.submitted ++ line ∷ [];
      } in
      let ready : Ready m = record { opened = (name, refl); has_queue = r.has_queue } in
      let (t, run, kept, file, lines, _) = deliver_total m line l.is_async l.deque ready in
      (t, ground (arith, rotate_total l now old r e, run), kept, file, lines)
