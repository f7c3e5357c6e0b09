-- ===== src/EpollServer/Buffer.antt =====
-- epoll/server.cpp: what is printed and what is sent back, from a cleared or a full buffer.
use mathlib.Core.List.{append-nil}
use learning_c.Common.{
  ℕ, zero, suc, ◌+◌, ◌-◌, ◌<◌, ◌≡◌, ◌≢◌, refl, ap, ◌∙◌, some, List, [], ◌∷◌, ◌++◌, ◌==◌,
  if◌then◌else◌, length, drop, take-append, ok, fault, arith, All,
}
use learning_c.EpollServer.{
  printed, sent, Answers, Server, buffer_size, zeros, c_string, answer_client, handle,
}

-- the bytes before the first zero
abbrev pub up_to_zero : List ℕ → List ℕ
up_to_zero [] = []
up_to_zero (b ∷ bs) = if b == 0 then [] else b ∷ up_to_zero bs

pub drop-zeros : (m n k : ℕ) → n ≡ m + k → drop m (zeros n) ≡ zeros k
drop-zeros zero n k h = let same : n ≡ k = omega (arith, h) in ap zeros same
drop-zeros (suc m) zero k h = absurd (omega (arith, h))
drop-zeros (suc m) (suc n) k h = drop-zeros m n k (omega (arith, h))

drop-length : (n : ℕ) (xs : List ℕ) → n ≡ length xs → drop n xs ≡ []
drop-length zero [] h = refl
drop-length zero (x ∷ xs) h = absurd (omega (arith, h))
drop-length (suc n) [] h = refl
drop-length (suc n) (x ∷ xs) h = drop-length n xs (omega (arith, h))

pub c_string-append : (bs : List ℕ) (k : ℕ) → c_string (bs ++ zeros (suc k)) ≡ ok (up_to_zero bs)
unfolding c_string
c_string-append [] k = refl
c_string-append (b ∷ bs) k = ground (arith, c_string-append bs k)

c_string-fault : (bs : List ℕ) → All (λ b. b ≢ 0) bs → c_string bs ≡ fault
unfolding c_string
c_string-fault [] h = refl
c_string-fault (b ∷ bs) (n, h) = ground (arith, c_string-fault bs h, n)

-- The reply to a client that sent fewer bytes than the buffer holds, when the buffer is cleared: the
-- bytes up to the first zero are printed, the first byte is replaced by the letter 1 and all are
-- sent back, and the buffer is cleared again.
pub handle-reply :
    (s : Server) (fd b : ℕ) (bs : List ℕ) (a : Answers)
    → fd ≢ s.server_fd
    → s.buffer ≡ zeros buffer_size
    → a.reads ≡ some (b ∷ bs)
    → suc (length bs) < buffer_size
    → handle s fd a
      ≡ ok (record s {
        buffer = zeros buffer_size;
        calls = s.calls ++ printed (up_to_zero (b ∷ bs)) ∷ sent fd (49 ∷ bs) ∷ [];
      })
unfolding handle answer_client
handle-reply s fd b bs a other clean got short =
    let k = buffer_size - suc (suc (length bs)) in
    let rest : drop (suc (length bs)) s.buffer ≡ zeros (suc k) =
      ap (drop (suc (length bs))) clean
      ∙ drop-zeros (suc (length bs)) buffer_size (suc k) (omega (arith, short)) in
    ground (arith, other, got, rest, c_string-append (b ∷ bs) k, take-append bs (zeros (suc k)))

-- A client that sends as many bytes as the buffer holds, none of them zero, makes the server print
-- past the end of the buffer.
pub handle-fault :
    (s : Server) (fd b : ℕ) (bs : List ℕ) (a : Answers)
    → fd ≢ s.server_fd
    → length s.buffer ≡ buffer_size
    → a.reads ≡ some (b ∷ bs)
    → suc (length bs) ≡ buffer_size
    → All (λ c. c ≢ 0) (b ∷ bs)
    → handle s fd a ≡ fault
unfolding handle answer_client
handle-fault s fd b bs a other size got full nonzero =
    let rest : drop (suc (length bs)) s.buffer ≡ [] =
      drop-length (suc (length bs)) s.buffer (omega (arith, size, full)) in
    ground (arith, other, got, rest, append-nil (b ∷ bs), c_string-fault (b ∷ bs) nonzero)
