-- ===== src/AsyncLog/Month.antt =====
-- buffer/async_buffer.cpp: `write` on the same day of another month.
use learning_c.Common.{
  ℕ, suc, ◌%◌, ◌≡◌, ◌≢◌, ◌⊎◌, refl, ap, ◌∙◌, false, none, some, List, [], ◌∷◌, ◌++◌, Bool, ok,
  arith, inl, inr,
}
use learning_c.AsyncLog.{BlockDeque, Now, Log, name_of, line_of, rotate, append_line, write}

module _ {Q : Type 0} (D : BlockDeque Q) (max_lines : ℕ) where
  rotate-none :
      (l : Log Q) (now : Now) (opens : Bool)
      → l.today ≡ now.day
      → (l.line_count ≡ 0) ⊎ (l.line_count % max_lines ≢ 0)
      → rotate D max_lines l now opens ≡ ok l
  unfolding rotate
  rotate-none l now opens day (inl zero_lines) = ground (arith, day, zero_lines)
  rotate-none l now opens day (inr no_part) = ground (arith, day, no_part)

  -- Let a log that is not asynchronous have the file of the time `before` open, with lines that are not
  -- enough for another part, and let `write` be called on the same day of another month. It
  -- returns, its line has gone to the old file, which is not that of the day of the write, and that
  -- file stays open.
  pub write-other_month :
      (l : Log Q) (level : ℕ) (before now : Now) (message : List ℕ) (opens : Bool)
      → l.is_async ≡ false
      → l.file ≡ some (name_of before none)
      → l.today ≡ before.day
      → before.day ≡ now.day
      → before.month ≢ now.month
      → (l.line_count ≡ 0) ⊎ (l.line_count % max_lines ≢ 0)
      → (t : Log Q) × (write D max_lines l level now message opens ≡ ok t)
        × (t.output ≡ l.output ++ (name_of before none, line_of level now message) ∷ [])
        × (t.file ≡ some (name_of before none))
        × (name_of before none ≢ name_of now none)
  unfolding write append_line
  write-other_month l level before now message opens sync file today day month lines =
      let line = line_of level now message in
      (
        record l {
          line_count = suc l.line_count;
          submitted = l.submitted ++ line ∷ [];
          output = l.output ++ (name_of before none, line) ∷ [];
        },
        ground (arith, rotate-none l now opens (today ∙ day) lines, sync, file),
        refl,
        file,
        λ same. month (ap (λ n. n.month) same),
      )
