-- ===== src/AsyncLog/Delivery.antt =====
-- buffer/async_buffer.cpp, the parts of `write`: the lines in the files and in the queue.
use mathlib.Core.List.{append_assoc, Permᴰ}
use mathlib.Core.List.Permᴰ as Permᴰ
use learning_c.Common.{
  ℕ, ◌%◌, ◌/◌, ◌≡◌, ◌∙◌, refl, sym, ap, subst, inl, inr, not, ◌&&◌, Bool, true, false, Option, none,
  some, List, [], ◌∷◌, ◌++◌, ◌==◌, ok, >>=-eq-ok, access, arith, Bool-cases, Option-cases,
}
use learning_c.AsyncLog.{
  BlockDeque, FileName, Now, Log, name_of, flush, put_line, reopen, rotate, deliver, in_queue,
}

-- the lines in the files, in the order in which they were put there
abbrev pub lines : List (FileName × List ℕ) → List (List ℕ)
lines [] = []
lines ((name, line) ∷ rest) = line ∷ lines rest

lines-append : (xs ys : List (FileName × List ℕ)) → lines (xs ++ ys) ≡ lines xs ++ lines ys
lines-append [] ys = refl
lines-append ((name, line) ∷ xs) ys = ap (λ l. line ∷ l) (lines-append xs ys)

module _ {Q : Type 0} where
  pub flush-eq-ok : (l t : Log Q) → flush l ≡ ok t → t ≡ l
  flush-eq-ok l t h = elim (Bool-cases l.is_async) [
    | inl y ↦ elim (Option-cases l.deque) [
      | inl n ↦ absurd (ground (arith, h, y, n))
      | inr (q, e) ↦ ground (arith, h, y, e)
    ]
    | inr n ↦ ground (arith, h, n)
  ]

module _ {Q : Type 0} (D : BlockDeque Q) (max_lines : ℕ) where
  -- every line that was submitted is in a file or in the queue, once
  abbrev pub Complete : Log Q → Type 0
  Complete l = Permᴰ l.submitted (lines l.output ++ in_queue D max_lines l.deque)

  pub put_line-Complete :
      (l t : Log Q) (line : List ℕ) (done : List (List ℕ))
      → put_line l line ≡ ok t
      → Permᴰ l.submitted ((done ++ line ∷ []) ++ in_queue D max_lines l.deque)
      → lines l.output ≡ done
      → Complete t
  put_line-Complete l t line done h k e =
      let (name, there, last) = >>=-eq-ok (access l.file) _ h in
      let same : record l { output = l.output ++ (name, line) ∷ [] } ≡ t = ground (arith, last) in
      let longer : done ++ line ∷ [] ≡ lines (l.output ++ (name, line) ∷ []) =
        sym (lines-append l.output ((name, line) ∷ []) ∙ ap (λ x. x ++ line ∷ []) e) in
      subst Complete same
        (subst (λ x. Permᴰ l.submitted (x ++ in_queue D max_lines l.deque)) longer k)

  pub reopen-Complete :
      (l t : Log Q) (name : FileName) (opens : Bool)
      → reopen l name opens ≡ ok t
      → Complete l
      → Complete t
  reopen-Complete l t name opens h k =
      let (f, a, h₁) = >>=-eq-ok (flush l) _ h in
      let (old, b, h₂) = >>=-eq-ok (access f.file) _ h₁ in
      let e = flush-eq-ok l f a in
      let same : record l { file = some name } ≡ t = ground (arith, e, h₂) in subst Complete same k

  pub rotate-Complete :
      (l t : Log Q) (now : Now) (opens : Bool)
      → rotate D max_lines l now opens ≡ ok t
      → Complete l
      → Complete t
  unfolding rotate
  rotate-Complete l t now opens h k = elim (Bool-cases (l.today == now.day)) [
    | inl same_day ↦ elim (Bool-cases (not (l.line_count == 0) && l.line_count % max_lines == 0)) [
      | inl enough ↦
          reopen-Complete l t (name_of now (some (l.line_count / max_lines))) opens
            (ground (arith, h, same_day, enough)) k
      | inr few ↦ let same : l ≡ t = ground (arith, h, same_day, few) in subst Complete same k
    ]
    | inr other ↦
        reopen-Complete (record l { today = now.day; line_count = 0 }) t (name_of now none) opens
          (ground (arith, h, other)) k
  ]

  -- A line that goes past the queue to the file.
  direct :
      (s : List (List ℕ)) (line : List ℕ) (done queued : List (List ℕ))
      → Permᴰ s (done ++ queued)
      → Permᴰ (s ++ line ∷ []) ((done ++ line ∷ []) ++ queued)
  direct s line done queued k = Permᴰ.trans (Permᴰ.append_right (line ∷ []) k) (
      subst (λ x. Permᴰ x ((done ++ line ∷ []) ++ queued))
        (sym (append_assoc done queued (line ∷ [])))
        (subst (Permᴰ (done ++ (queued ++ line ∷ []))) (sym (append_assoc done (line ∷ []) queued))
          (Permᴰ.append_left done (Permᴰ.append_comm queued (line ∷ [])))))

  put_new-Complete :
      (l t : Log Q) (line : List ℕ) (s : List (List ℕ))
      → l.submitted ≡ s ++ line ∷ []
      → Permᴰ s (lines l.output ++ in_queue D max_lines l.deque)
      → put_line l line ≡ ok t
      → Complete t
  put_new-Complete l t line s new k h =
      put_line-Complete l t line (lines l.output) h
        (subst (λ x. Permᴰ x ((lines l.output ++ line ∷ []) ++ in_queue D max_lines l.deque))
          (sym new) (direct s line (lines l.output) (in_queue D max_lines l.deque) k))
        refl

  queued :
      (s : List (List ℕ)) (line : List ℕ) (done : List (List ℕ)) (q : Q)
      → Permᴰ s (done ++ D.contents q)
      → Permᴰ (s ++ line ∷ []) (done ++ D.contents (D.push_back q line))
  queued s line done q k =
      subst (λ x. Permᴰ (s ++ line ∷ []) (done ++ x)) (sym (D.contents-push_back q line))
        (subst (Permᴰ (s ++ line ∷ [])) (append_assoc done (D.contents q) (line ∷ []))
          (Permᴰ.append_right (line ∷ []) k))

  pub deliver-Complete :
      (l t : Log Q) (line : List ℕ) (s : List (List ℕ)) (b : Bool) (d : Option Q)
      → l.deque ≡ d
      → l.submitted ≡ s ++ line ∷ []
      → Permᴰ s (lines l.output ++ in_queue D max_lines l.deque)
      → deliver D max_lines l line b d ≡ ok t
      → Complete t
  deliver-Complete l t line s false d e new k h = put_new-Complete l t line s new k h
  deliver-Complete l t line s true none e new k h = put_new-Complete l t line s new k h
  deliver-Complete l t line s true (some q) e new k h = elim (Bool-cases (D.full q)) [
    | inl full ↦ put_new-Complete l t line s new k (ground (arith, h, full))
    | inr room ↦
        let same : record l { deque = some (D.push_back q line) } ≡ t = ground (arith, h, room) in
        let before : Permᴰ s (lines l.output ++ D.contents q) =
          subst (λ x. Permᴰ s (lines l.output ++ in_queue D max_lines x)) e k in
        subst Complete same (
          subst (λ x. Permᴰ x (lines l.output ++ D.contents (D.push_back q line))) (sym new)
            (queued s line (lines l.output) q before))
  ]
