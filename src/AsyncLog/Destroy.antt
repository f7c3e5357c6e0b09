-- ===== src/AsyncLog/Destroy.antt =====
-- buffer/async_buffer.cpp, the destructor of a log whose file is open.
use mathlib.Core.List.{append-nil, Perm, Permᴰ}
use learning_c.Common.{
  ℕ, zero, suc, ◌≡◌, refl, ap, subst, inl, inr, none, some, List, [], ◌∷◌, ◌++◌, length, ok, arith,
  Option-cases,
}
use learning_c.AsyncLog.{BlockDeque, Log, async_write, in_queue, drain, destroy}
use learning_c.AsyncLog.Delivery.{lines, Complete}
use learning_c.AsyncLog.Lines.{async_write-Complete}
use learning_c.AsyncLog.Ready.{Ready, flush_total}

module _ {Q : Type 0} (D : BlockDeque Q) (max_lines : ℕ) where
  async_write_total :
      (l : Log Q) (n : ℕ)
      → Ready l
      → length (in_queue D max_lines l.deque) ≡ suc n
      → (m : Log Q) × (async_write D max_lines l ≡ ok m)
        × Ready m
        × (length (in_queue D max_lines m.deque) ≡ n)
  async_write_total l n r size = elim (Option-cases l.deque) [
    | inl no_queue ↦
        let none_left : length (in_queue D max_lines none) ≡ suc n =
          subst (λ d. length (in_queue D max_lines d) ≡ suc n) no_queue size in
        absurd (omega (arith, none_left))
    | inr (q, e) ↦
        let here : length (D.contents q) ≡ suc n =
          subst (λ d. length (in_queue D max_lines d) ≡ suc n) e size in
        elim (Option-cases (D.pop q)) [
          | inl nothing ↦ absurd (omega (arith, here, ap (λ c. length c) (D.pop-eq-none q nothing)))
          | inr ((line, rest), p) ↦
              let (name, there) = r.opened in
              let m : Log Q = record l {
                deque = some rest;
                output = l.output ++ (name, line) ∷ [];
              } in
              (
                m,
                ground (arith, e, p, there),
                record { opened = r.opened; has_queue = inr (rest, refl) },
                omega (arith, here, ap (λ c. length c) (D.pop-eq-some q rest line p)),
              )
        ]
  ]

  length-zero : (xs : List (List ℕ)) → length xs ≡ 0 → xs ≡ []
  length-zero [] h = refl
  length-zero (x ∷ xs) h = absurd (omega (arith, h))

  drain_total :
      (n : ℕ) (l : Log Q)
      → Ready l
      → length (in_queue D max_lines l.deque) ≡ n
      → Complete D max_lines l
      → (t : Log Q) × (drain D max_lines n l ≡ ok t)
        × Ready t
        × Complete D max_lines t
        × (in_queue D max_lines t.deque ≡ [])
  unfolding drain
  drain_total zero l r size k =
      let nothing = length-zero (in_queue D max_lines l.deque) size in
      (l, ground (arith, nothing), r, k, nothing)
  drain_total (suc n) l r size k =
      let (m, step, ready, less) = async_write_total l n r size in
      let (t, run, ready_t, complete, nothing) =
        drain_total n m ready less (async_write-Complete D max_lines l m step k) in
      (t, ground (arith, step, run), ready_t, complete, nothing)

  -- The destructor of a log with an open file, and with a queue if it is asynchronous, returns;
  -- then the file is closed, and if every line submitted was in a file or in the queue once, it is
  -- now in a file once.
  pub destroy_total :
      (l : Log Q)
      → Ready l
      → Complete D max_lines l
      → (t : Log Q) × (destroy D max_lines l ≡ ok t)
        × (t.file ≡ none)
        × Perm t.submitted (lines t.output)
  unfolding destroy
  destroy_total l r k =
      let (d, run, ready, complete, nothing) =
        drain_total (length (in_queue D max_lines l.deque)) l r refl k in
      let (name, e) = ready.opened in
      let t : Log Q = record d { file = none } in
      let all : Permᴰ d.submitted (lines d.output) =
        subst (Permᴰ d.submitted) (append-nil (lines d.output))
          (subst (λ c. Permᴰ d.submitted (lines d.output ++ c)) nothing complete) in
      (t, ground (arith, run, e, flush_total d ready), refl, ∣ all ∣₁)
