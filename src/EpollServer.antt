-- ===== src/EpollServer.antt =====
-- epoll/server.cpp: the echo server, as the calls that it makes for the answers that the system
-- gives. `calls` lists them in order; a call that only fails has no entry. The buffer is 1024 bytes.
-- A print of it reads up to the first zero byte, and past the end is a `fault`.
pub mod Buffer
pub mod Balance
pub mod StartUp
mod Tests
use learning_c.Common.{
  ℕ, zero, suc, Bool, true, false, Option, none, some, List, [], ◌∷◌, ◌++◌, ◌==◌, if◌then◌else◌,
  length, take, drop, set, Run, ok, fault, ◌>>=◌,
}

pub data Call : Type 0 where
  opened accepted added closed : (fd : ℕ) → Call
  printed : List ℕ → Call
  sent : (fd : ℕ) → List ℕ → Call

-- what the system answers while one ready descriptor is handled; `none` is -1
pub record Answers : Type 0 where
  pub accepts : Option ℕ
  pub adds : Bool
  pub reads : Option (List ℕ)

pub record Server : Type 0 where
  pub server_fd : ℕ
  pub epoll_fd : ℕ
  pub buffer : List ℕ
  pub calls : List Call

abbrev pub buffer_size : ℕ
buffer_size = 1024

abbrev pub zeros : ℕ → List ℕ
zeros zero = []
zeros (suc n) = 0 ∷ zeros n

-- `std::memset(buffer, 0, sizeof(buffer))`
abbrev pub clear_buffer : Server → Server
clear_buffer s = record s { buffer = zeros buffer_size }

abbrev pub log : Server → List Call → Server
log s cs = record s { calls = s.calls ++ cs }

-- the bytes from the start of the buffer up to the first that is zero
unfoldable pub c_string : List ℕ → Run (List ℕ)
c_string [] = fault
c_string (b ∷ bs) = elim (b == 0) [ true ↦ ok [] | false ↦ do rest ← c_string bs; ok (b ∷ rest) ]

-- what `read` leaves in the buffer
abbrev pub fill : List ℕ → List ℕ → List ℕ
fill bytes buffer = bytes ++ drop (length bytes) buffer

abbrev pub watch : Server → ℕ → Bool → Server
watch s fd true = log s (accepted fd ∷ added fd ∷ [])
watch s fd false = log s (accepted fd ∷ closed fd ∷ [])

abbrev pub accept_client : Server → Answers → Server
accept_client s a = elim a.accepts [ none ↦ s | some fd ↦ watch s fd a.adds ]

-- `valread` is the number of bytes that were read.
unfoldable pub answer_client : Server → ℕ → List ℕ → Run Server
answer_client s fd bytes = do
  let filled = fill bytes s.buffer
  text ← c_string filled
  ok (clear_buffer (log s (printed text ∷ sent fd (take (length bytes) (set filled 0 49)) ∷ [])))

-- `epoll_ctl` after `close` fails, since the descriptor is closed, which has taken it off the watch.
abbrev pub drop_client : Server → ℕ → Server
drop_client s fd = clear_buffer (log s (closed fd ∷ []))

abbrev pub read_client : Server → ℕ → Option (List ℕ) → Run Server
read_client s fd none = ok (drop_client s fd)
read_client s fd (some []) = ok (drop_client s fd)
read_client s fd (some (b ∷ bs)) = answer_client s fd (b ∷ bs)

-- the body of the `for` loop
unfoldable pub handle : Server → ℕ → Answers → Run Server
handle s fd a = if fd == s.server_fd then ok (accept_client s a) else read_client s fd a.reads

unfoldable pub handle_all : Server → List (ℕ × Answers) → Run Server
handle_all s [] = ok s
handle_all s ((fd, a) ∷ events) = handle s fd a >>= λ t. handle_all t events

-- the `while` loop, one answer of `epoll_wait` for each round, and what follows it
unfoldable pub serve : Server → List (Option (List (ℕ × Answers))) → Run Server
serve s [] = ok s
serve s (none ∷ rounds) = ok (log s (closed s.server_fd ∷ closed s.epoll_fd ∷ []))
serve s (some events ∷ rounds) = handle_all s events >>= λ t. serve t rounds

-- the answers to `socket`, `bind`, `listen`, `epoll_create1` and `epoll_ctl`
pub record Setup : Type 0 where
  pub socket : Option ℕ
  pub binds : Bool
  pub listens : Bool
  pub epoll : Option ℕ
  pub registers : Bool

-- the end of the set-up: the calls made, and the server if `main` did not return 1
pub record Started : Type 0 where
  pub trace : List Call
  pub server : Option (ℕ × ℕ)

abbrev pub give_up : List Call → Started
give_up cs = record { trace = cs; server = none }

abbrev pub register : ℕ → ℕ → Bool → Started
register fd ep false = give_up (opened fd ∷ opened ep ∷ closed fd ∷ closed ep ∷ [])
register fd ep true = record {
  trace = opened fd ∷ opened ep ∷ added fd ∷ [];
  server = some (fd, ep);
}

abbrev pub create_epoll : ℕ → Setup → Option ℕ → Started
create_epoll fd s none = give_up (opened fd ∷ closed fd ∷ [])
create_epoll fd s (some ep) = register fd ep s.registers

abbrev pub bind_and_listen : ℕ → Setup → Started
bind_and_listen fd s =
    if s.binds
    then (if s.listens then create_epoll fd s s.epoll else give_up (opened fd ∷ closed fd ∷ []))
    else give_up (opened fd ∷ [])

unfoldable pub start_up : Setup → Started
start_up s = elim s.socket [ none ↦ give_up [] | some fd ↦ bind_and_listen fd s ]
