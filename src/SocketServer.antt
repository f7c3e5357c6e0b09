-- ===== src/SocketServer.antt =====
-- socket/socket.c: the echo server with a thread for each client, as the calls that it makes for the
-- answers that the system gives. Descriptors are `int`s, and -1 is one. `clientfd` is an object of one
-- round of the loop in `main`, and its address is what the thread gets. As compilers do, each round
-- has it at the same address, so that a late read gets the descriptor of the round that there is by
-- then; between two rounds the read is a `fault`, as is a `send` of -1 bytes, which as a `size_t` is
-- more than any buffer holds.
pub mod Echo
pub mod Clients
mod Tests
use learning_c.Common.{
  ℕ, zero, suc, Bool, true, false, Option, none, some, List, [], ◌∷◌, ◌++◌, ◌==◌, if◌then◌else◌,
  length, take, get_elem?, set, Run, ok, fault, ◌>>=◌, ℤ,
}
use learning_c.EpollServer.{zeros, fill, c_string}

pub data Call : Type 0 where
  opened accepted closed : (fd : ℤ) → Call
  sent : (fd : ℤ) → List ℕ → Call
  printed : List ℕ → Call

-- a thread, whose number is that of its round: about to read `*(int *)arg`, in its loop, returned
pub data Place : Type 0 where
  starting ended : Place
  serving : (fd : ℤ) → Place

-- `clientfd` is there between `accept` and the end of the round. `clients` records what was accepted.
pub record Server : Type 0 where
  pub clientfd : Option ℤ
  pub threads : List Place
  pub clients : List ℤ
  pub calls : List Call

-- `accept` returns a descriptor or -1, a round ends, or a thread does a step, in which `recv` returns
-- bytes or -1
pub data Event : Type 0 where
  accept : (fd : ℤ) → Event
  end_round : Event
  turn : (i : ℕ) → Option (List ℕ) → Event

-- `socket`, `bind` and `listen`: the calls, and the descriptor unless `main` returns -1
abbrev pub start_up : ℤ → Bool → Bool → List Call × Option ℤ
start_up fd false listens = (opened fd ∷ [], none)
start_up fd true false = (opened fd ∷ [], none)
start_up fd true true = (opened fd ∷ [], some fd)

abbrev pub start : Server
start = record { clientfd = none; threads = []; clients = []; calls = [] }

abbrev pub go : Server → ℕ → Place → Server
go s i p = record s { threads = set s.threads i p }

abbrev pub log : Server → List Call → Server
log s cs = record s { calls = s.calls ++ cs }

-- `accept` and `pthread_create`, once a round
abbrev pub new_client : Server → ℤ → Option ℤ → Server
new_client s fd none = record s {
  clientfd = some fd;
  threads = s.threads ++ starting ∷ [];
  clients = s.clients ++ fd ∷ [];
  calls = s.calls ++ accepted fd ∷ [];
}
new_client s fd (some old) = s

-- `int clientfd = *(int *)arg`
abbrev pub read_arg : Server → ℕ → Option ℤ → Run Server
read_arg s i none = fault
read_arg s i (some fd) = ok (go s i (serving fd))

-- a round of the loop of `clinet_thread`
abbrev pub buffer_size : ℕ
buffer_size = 128

unfoldable pub answer : Server → ℕ → ℤ → Option (List ℕ) → Run Server
answer s i fd none = fault
answer s i fd (some []) = ok (log (go s i ended) (closed fd ∷ []))
answer s i fd (some (b ∷ bs)) = do
  let buffer = fill (b ∷ bs) (zeros buffer_size)
  text ← c_string buffer
  ok (log s (sent fd (take (length (b ∷ bs)) buffer) ∷ printed text ∷ []))

abbrev pub work : Server → ℕ → Option (List ℕ) → Option Place → Run Server
work s i received none = ok s
work s i received (some starting) = read_arg s i s.clientfd
work s i received (some (serving fd)) = answer s i fd received
work s i received (some ended) = ok s

unfoldable pub step : Server → Event → Run Server
step s (accept fd) = ok (new_client s fd s.clientfd)
step s end_round = ok (record s { clientfd = none })
step s (turn i received) = work s i received (get_elem? s.threads i)

unfoldable pub run : Server → List Event → Run Server
run s [] = ok s
run s (e ∷ es) = step s e >>= λ t. run t es
