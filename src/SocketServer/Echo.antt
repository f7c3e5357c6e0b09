-- ===== src/SocketServer/Echo.antt =====
-- socket/socket.c: what a thread sends and prints for what it receives.
use learning_c.Common.{
  ℕ, suc, ◌-◌, ◌≤◌, ◌≡◌, none, some, List, [], ◌∷◌, length, drop, take-append, get_elem?, ok, fault,
  arith, ℤ,
}
use learning_c.EpollServer.{zeros}
use learning_c.EpollServer.Buffer.{up_to_zero, drop-zeros, c_string-append}
use learning_c.SocketServer.{
  sent, printed, closed, ended, Server, turn, serving, go, log, answer, buffer_size, step,
}

-- A thread in its loop that has received 1 to 120 bytes, as many as it asks for at most, sends them
-- back as they are, and the print of the buffer stops at the first zero byte or at their end, in the
-- buffer; with no byte it closes the connection and returns; with -1 from `recv` it sends from past
-- the end of the buffer.
pub serving_lem :
    (s : Server) (i b : ℕ) (bs : List ℕ) (fd : ℤ)
    → get_elem? s.threads i ≡ some (serving fd)
    → suc (length bs) ≤ 120
    → (step s (turn i (some (b ∷ bs)))
        ≡ ok (log s (sent fd (b ∷ bs) ∷ printed (up_to_zero (b ∷ bs)) ∷ [])))
      × (step s (turn i (some [])) ≡ ok (log (go s i ended) (closed fd ∷ [])))
      × (step s (turn i none) ≡ fault)
unfolding step answer
serving_lem s i b bs fd here short =
    let k = buffer_size - suc (suc (length bs)) in
    let rest : drop (suc (length bs)) (zeros buffer_size) ≡ zeros (suc k) =
      drop-zeros (suc (length bs)) buffer_size (suc k) (omega (arith, short)) in
    (
      ground (arith, here, rest, c_string-append (b ∷ bs) k, take-append bs (zeros (suc k))),
      ground (arith, here),
      ground (arith, here),
    )
