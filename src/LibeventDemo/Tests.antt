-- ===== src/LibeventDemo/Tests.antt =====
-- protobuf/demo/client.cpp and protobuf/demo/server.cpp: a client whose connection fails, and a server
-- with two connections.
use learning_c.Common.{ℕ, ◌+◌, ◌≤◌, ◌≡◌, Option, some, List, [], ◌∷◌, length, ok}
use learning_c.LibeventDemo.{World, ClientEvent, error, ServerEvent, accepts, reads, serve}
use learning_c.LibeventDemo.Server.{messages, accepted, server_total}

abbrev refused : List ClientEvent
refused = error ∷ []

abbrev as_it_is : List ℕ → List ℕ
as_it_is text = text

abbrev parse : List ℕ → Option (List ℕ)
parse bytes = some bytes

abbrev empty : World
empty = record { live = []; calls = [] }

-- the second part of the first message comes when its buffer event is freed
abbrev events : List ServerEvent
events =
    accepts (some 1)
    ∷ accepts (some 2)
    ∷ reads 1 (104 ∷ [])
    ∷ reads 1 (105 ∷ [])
    ∷ reads 2 (72 ∷ [])
    ∷ []

server_total_example :
    (v : World) × (serve parse empty events ≡ ok v)
    × (messages v.calls + length v.live
        ≤ messages empty.calls + length empty.live + accepted events)
server_total_example = server_total parse empty events tt
