-- ===== src/AsyncLog/Lines.antt =====
-- buffer/async_buffer.cpp, all calls and the writing thread: the lines submitted, written and queued.
use mathlib.Core.List.{append_assoc, Perm, Permᴰ}
use learning_c.Common.{
  ℕ, suc, ◌≡◌, refl, sym, subst, inl, inr, Bool, true, false, Option, none, some, List, [], ◌∷◌,
  ◌++◌, ltb, ok, ◌>>=◌, >>=-eq-ok, arith, Bool-cases, Option-cases,
}
use learning_c.AsyncLog.{
  BlockDeque, Now, Log, Op, initialise, write_line, change_level, write_queued, name_of, line_of,
  create, flush, start_queue, close_file, init, rotate, append_line, write, write_popped,
  async_write, in_queue, perform, run,
}
use learning_c.AsyncLog.Delivery.{
  lines, flush-eq-ok, Complete, put_line-Complete, rotate-Complete, deliver-Complete,
}

module _ {Q : Type 0} (D : BlockDeque Q) (max_lines : ℕ) where
  pub append_line-Complete :
      (l t : Log Q) (level : ℕ) (now : Now) (message : List ℕ)
      → append_line D max_lines l level now message ≡ ok t
      → Complete D max_lines l
      → Complete D max_lines t
  unfolding append_line
  append_line-Complete l t level now message h k =
      let line = line_of level now message in
      deliver-Complete D max_lines
        (record l { line_count = suc l.line_count; submitted = l.submitted ++ line ∷ [] }) t line
        l.submitted l.is_async l.deque refl refl k h

  write-Complete :
      (l t : Log Q) (level : ℕ) (now : Now) (message : List ℕ) (opens : Bool)
      → write D max_lines l level now message opens ≡ ok t
      → Complete D max_lines l
      → Complete D max_lines t
  unfolding write
  write-Complete l t level now message opens h k =
      let (r, a, b) = >>=-eq-ok (rotate D max_lines l now opens) _ h in
      append_line-Complete r t level now message b (rotate-Complete D max_lines l r now opens a k)

  write_popped-Complete :
      (l t : Log Q) (q : Q) (o : Option (List ℕ × Q))
      → l.deque ≡ some q
      → D.pop q ≡ o
      → write_popped D max_lines l o ≡ ok t
      → Complete D max_lines l
      → Complete D max_lines t
  write_popped-Complete l t q none e p h k =
      let same : l ≡ t = ground (arith, h) in subst (Complete D max_lines) same k
  write_popped-Complete l t q (some (line, rest)) e p h k =
      let before : Permᴰ l.submitted (lines l.output ++ D.contents q) =
        subst (λ x. Permᴰ l.submitted (lines l.output ++ in_queue D max_lines x)) e k in
      let first : Permᴰ l.submitted (lines l.output ++ (line ∷ D.contents rest)) =
        subst (λ x. Permᴰ l.submitted (lines l.output ++ x)) (D.pop-eq-some q rest line p) before in
      put_line-Complete D max_lines (record l { deque = some rest }) t line (lines l.output) h
        (subst (Permᴰ l.submitted)
          (sym (append_assoc (lines l.output) (line ∷ []) (D.contents rest))) first)
        refl

  pub async_write-Complete :
      (l t : Log Q)
      → async_write D max_lines l ≡ ok t
      → Complete D max_lines l
      → Complete D max_lines t
  async_write-Complete l t h k = elim (Option-cases l.deque) [
    | inl n ↦ let same : l ≡ t = ground (arith, h, n) in subst (Complete D max_lines) same k
    | inr (q, e) ↦ write_popped-Complete l t q (D.pop q) e refl (ground (arith, h, e)) k
  ]

  start_queue-Complete :
      (l : Log Q) (size : ℕ)
      → Complete D max_lines l
      → Complete D max_lines (start_queue D max_lines l size)
  start_queue-Complete l size k = elim (Bool-cases (ltb 0 size)) [
    | inr sync ↦
        let same : record l { is_async = false } ≡ start_queue D max_lines l size =
          ground (arith, sync) in
        subst (Complete D max_lines) same k
    | inl async ↦ elim (Option-cases l.deque) [
      | inr (q, e) ↦
          let same : record l { is_async = true } ≡ start_queue D max_lines l size =
            ground (arith, async, e) in
          subst (Complete D max_lines) same k
      | inl n ↦
          let same : record l { is_async = true; deque = some D.new }
              ≡ start_queue D max_lines l size =
            ground (arith, async, n) in
          subst (Complete D max_lines) same (
            subst (λ x. Permᴰ l.submitted (lines l.output ++ x)) (sym D.contents-new)
              (subst (λ x. Permᴰ l.submitted (lines l.output ++ in_queue D max_lines x)) n k))
    ]
  ]

  pub close_file-Complete :
      (l t : Log Q)
      → close_file D max_lines l ≡ ok t
      → Complete D max_lines l
      → Complete D max_lines t
  close_file-Complete l t h k = elim (Option-cases l.file) [
    | inl n ↦ let same : l ≡ t = ground (arith, h, n) in subst (Complete D max_lines) same k
    | inr (name, e) ↦
        let closing : (flush l >>= λ f. ok (record f { file = none })) ≡ ok t =
          ground (arith, h, e) in
        let (f, a, b) = >>=-eq-ok (flush l) _ closing in
        let unchanged = flush-eq-ok l f a in
        let same : record l { file = none } ≡ t = ground (arith, unchanged, b) in
        subst (Complete D max_lines) same k
  ]

  init-Complete :
      (l t : Log Q) (level size : ℕ) (now : Now) (first second : Bool)
      → init D max_lines l level size now first second ≡ ok t
      → Complete D max_lines l
      → Complete D max_lines t
  unfolding init
  init-Complete l t level size now first second h k =
      let queued = start_queue D max_lines (record l { is_open = true; level = level }) size in
      let ready : Log Q = record queued { line_count = 0; today = now.day } in
      let (c, a, b) = >>=-eq-ok (close_file D max_lines ready) _ h in
      let kept = start_queue-Complete (record l { is_open = true; level = level }) size k in
      let same : record c { file = some (name_of now none) } ≡ t = ground (arith, b) in
      subst (Complete D max_lines) same (close_file-Complete ready c a kept)

  perform-Complete :
      (l t : Log Q) (op : Op)
      → perform D max_lines l op ≡ ok t
      → Complete D max_lines l
      → Complete D max_lines t
  unfolding perform
  perform-Complete l t (initialise level size now first second) h k =
      init-Complete l t level size now first second h k
  perform-Complete l t (write_line level now message opens) h k =
      write-Complete l t level now message opens h k
  perform-Complete l t (change_level level) h k =
      let same : record l { level = level } ≡ t = ground (arith, h) in
      subst (Complete D max_lines) same k
  perform-Complete l t write_queued h k = async_write-Complete l t h k

  pub run-Complete :
      (l t : Log Q) (ops : List Op)
      → run D max_lines l ops ≡ ok t
      → Complete D max_lines l
      → Complete D max_lines t
  unfolding run
  run-Complete l t [] h k =
      let same : l ≡ t = ground (arith, h) in subst (Complete D max_lines) same k
  run-Complete l t (op ∷ ops) h k =
      let (m, a, b) = >>=-eq-ok (perform D max_lines l op) _ h in
      run-Complete m t ops b (perform-Complete l m op a k)

-- After any sequence of calls and rounds of the writing thread on a new log that returns, the lines
-- submitted are a permutation of those in the files followed by those in the queue.
pub no_line_lost :
    {Q : Type 0} (D : BlockDeque Q) (max_lines : ℕ) (ops : List Op) (t : Log Q)
    → run D max_lines create ops ≡ ok t
    → Perm t.submitted (lines t.output ++ in_queue D max_lines t.deque)
no_line_lost D max_lines ops t h = ∣ run-Complete D max_lines create t ops h Permᴰ.nil ∣₁
