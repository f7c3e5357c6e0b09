-- ===== src/SocketServer/Tests.antt =====
-- socket/socket.c: two clients, the first served in time.
use learning_c.Common.{
  ℕ, suc, ◌<◌, length, arith, ◌≡◌, refl, none, some, List, [], ◌∷◌, get_elem?, Run, ok, fault,
  out_of_fuel, pos,
}
use learning_c.EpollServer.Buffer.{up_to_zero}
use learning_c.SocketServer.{Server, Event, accept, end_round, turn, start, step, run, serving}
use learning_c.SocketServer.Clients.{wrong_client}

abbrev result : Run Server → Server
result (ok s) = s
result fault = start
result out_of_fuel = start

-- the first thread has not run when the second client comes
abbrev events : List Event
events = accept (pos 5) ∷ end_round ∷ accept (pos 6) ∷ []

abbrev two_clients : Server
two_clients = result (run start events)

abbrev hello : List ℕ
hello = 104 ∷ 105 ∷ 0 ∷ 33 ∷ []

text_stops : up_to_zero hello ≡ 104 ∷ 105 ∷ []
text_stops = refl

wrong_client_example :
    (t : Server) × (last : ℕ) × (step two_clients (turn 0 none) ≡ ok t)
    × (get_elem? t.threads 0 ≡ some (serving (pos 6)))
    × (0 < last)
    × (suc last ≡ length t.clients)
    × (get_elem? t.clients last ≡ some (pos 6))
unfolding run step
wrong_client_example = wrong_client events two_clients 0 (pos 6) none refl refl (omega arith) refl

unserved : two_clients.clients ≡ pos 5 ∷ pos 6 ∷ []
unfolding run step
unserved = refl
