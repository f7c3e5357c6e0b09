-- ===== src/EpollServer/Tests.antt =====
-- epoll/server.cpp: a server that meets two clients.
use learning_c.Common.{
  ℕ, zero, suc, ◌≡◌, ◌≢◌, refl, Bool, true, false, none, some, List, [], ◌∷◌, length, ok, arith,
  All,
}
use learning_c.EpollServer.{
  accepted, added, closed, Answers, Server, buffer_size, zeros, handle, handle_all, Setup,
}
use learning_c.EpollServer.Balance.{Accounts, handle_all-Accounts}

abbrev idle : Server
idle = record { server_fd = 3; epoll_fd = 4; buffer = zeros buffer_size; calls = [] }

abbrev says : List ℕ → Answers
says bytes = record { accepts = none; adds = true; reads = some bytes }

abbrev hangs_up : Answers
hangs_up = record { accepts = none; adds = true; reads = none }

abbrev connects : ℕ → Bool → Answers
connects fd b = record { accepts = some fd; adds = b; reads = none }

abbrev ones : ℕ → List ℕ
ones zero = []
ones (suc n) = 1 ∷ ones n

ones-All : (n : ℕ) → All (λ c. c ≢ 0) (ones n)
ones-All zero = tt
ones-All (suc n) = (ground arith, ones-All n)

length-ones : (n : ℕ) → length (ones n) ≡ n
length-ones zero = refl
length-ones (suc n) = omega (arith, length-ones n)

length-zeros : (n : ℕ) → length (zeros n) ≡ n
length-zeros zero = refl
length-zeros (suc n) = omega (arith, length-zeros n)

-- one client is watched, one is refused, and the first hangs up
abbrev events : List (ℕ × Answers)
events = (3, connects 5 true) ∷ (3, connects 6 false) ∷ (5, hangs_up) ∷ []

abbrev later : Server
later = record idle { calls = accepted 5 ∷ added 5 ∷ accepted 6 ∷ closed 6 ∷ closed 5 ∷ [] }

handled : handle_all idle events ≡ ok later
unfolding handle_all handle
handled = refl

handle_all-Accounts_example : Accounts 5 idle later 1 0
handle_all-Accounts_example = handle_all-Accounts idle later events 5 handled

abbrev no_bind : Setup
no_bind = record {
  socket = some 3;
  binds = false;
  listens = true;
  epoll = some 4;
  registers = true;
}
