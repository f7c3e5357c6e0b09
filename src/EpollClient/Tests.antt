-- ===== src/EpollClient/Tests.antt =====
-- epoll/client.cpp: a string object whose first byte is 16, with its words short and in place.
use learning_c.Common.{ℕ, ◌-◌, ◌≡◌, refl, true, false, some, List, [], ◌∷◌, ◌++◌, length, ok, fault}
use learning_c.EpollServer.{zeros}
use learning_c.EpollClient.{Round, connect, connect_failed, close, send, print, talk, client}
use learning_c.EpollClient.Unconnected.{client-unconnected}

-- a pointer, the length, and the text in the object
abbrev object_rest : List ℕ → List ℕ
object_rest word =
    160 ∷ 85 ∷ 85 ∷ 85 ∷ 127 ∷ 0 ∷ 0 ∷ length word ∷ zeros 7 ++ word ++ zeros (16 - length word)

abbrev object : List ℕ → List ℕ
object word = 16 ∷ object_rest word

-- Two words are typed, and nothing comes back.
abbrev two_rounds : List Round
two_rounds =
    record { word = 104 ∷ []; received = [] } ∷ record { word = 105 ∷ []; received = [] } ∷ []

client-unconnected_example :
    client object (some 3 ∷ []) false two_rounds
    ≡ ok (
        connect (some 3) 8000
        ∷ connect_failed
        ∷ close (some 3)
        ∷ send (some 3) (object (104 ∷ []))
        ∷ print (104 ∷ [])
        ∷ send (some 3) (object (105 ∷ []))
        ∷ print (105 ∷ [])
        ∷ [])
client-unconnected_example = client-unconnected object (some 3) [] two_rounds (refl, (refl, tt))

-- A reply whose first byte is another one changes the pointer in the string.
pointer_changed :
    client object (some 3 ∷ []) true (record { word = 104 ∷ []; received = 49 ∷ [] } ∷ []) ≡ fault
unfolding talk client
pointer_changed = refl
