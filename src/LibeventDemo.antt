-- ===== src/LibeventDemo.antt =====
-- protobuf/demo/client.cpp and protobuf/demo/server.cpp: what the programs ask of libevent, for the
-- events that it reports. libevent and the generated class `Message` are not part of the model: a
-- buffer event is a number that is freed once, and `serialize` and `parse` are arguments. A use of a
-- null pointer, and a second free, is a `fault`.
pub mod Client
pub mod Server
mod Tests
use learning_c.Common.{
  ℕ, Bool, true, false, Option, none, some, List, [], ◌∷◌, ◌++◌, ◌==◌, if◌then◌else◌, Run, ok,
  fault, ◌>>=◌,
}

pub data Call : Type 0 where
  base_new base_free listener_new listener_free connected_printed error_printed : Call
  bev_new bev_free : (bev : ℕ) → Call
  written : (bev : ℕ) → List ℕ → Call
  received : List ℕ → Call

-- the buffer events that are there, and the calls in their order
pub record World : Type 0 where
  pub live : List ℕ
  pub calls : List Call

abbrev pub log : World → Call → World
log w c = record w { calls = w.calls ++ c ∷ [] }

abbrev pub is_live : ℕ → List ℕ → Bool
is_live bev [] = false
is_live bev (b ∷ bs) = let rest = is_live bev bs in if b == bev then true else rest

abbrev pub remove : ℕ → List ℕ → List ℕ
remove bev [] = []
remove bev (b ∷ bs) = let rest = remove bev bs in if b == bev then bs else b ∷ rest

-- `bufferevent_free(bev)`
unfoldable pub free_bev : World → ℕ → Run World
free_bev w bev =
    if is_live bev w.live
    then ok (record (log w (bev_free bev)) { live = remove bev w.live })
    else fault

-- `bufferevent_socket_new`, then `bufferevent_setcb` and `bufferevent_enable` of the result
abbrev pub new_bev : World → Option ℕ → Run World
new_bev w none = fault
new_bev w (some bev) = ok (record (log w (bev_new bev)) { live = bev ∷ w.live })

-- client.cpp

pub data ClientEvent : Type 0 where
  connected error other : ClientEvent

-- "Hello, World!"
abbrev pub hello : List ℕ
hello = 72 ∷ 101 ∷ 108 ∷ 108 ∷ 111 ∷ 44 ∷ 32 ∷ 87 ∷ 111 ∷ 114 ∷ 108 ∷ 100 ∷ 33 ∷ []

module _ (serialize : List ℕ → List ℕ) where
  abbrev pub event_cb : World → ℕ → ClientEvent → Run World
  event_cb w bev connected = ok (log (log w connected_printed) (written bev (serialize hello)))
  event_cb w bev error = free_bev (log w error_printed) bev
  event_cb w bev other = ok w

  -- `event_base_dispatch`: the events that are reported, none for a buffer event that is freed
  unfoldable pub dispatch : World → ℕ → List ClientEvent → Run World
  dispatch w bev [] = ok w
  dispatch w bev (e ∷ es) = do
    next ← event_cb w bev e
    if is_live bev next.live then dispatch next bev es else ok next

  -- `main`, for what `event_base_new`, `bufferevent_socket_new` and `bufferevent_socket_connect` return
  unfoldable pub client : Bool → Option ℕ → Bool → List ClientEvent → Run World
  client false made connects events = ok (record { live = []; calls = [] })
  client true none connects events = fault
  client true (some bev) connects events = do
    w ← new_bev (record { live = []; calls = base_new ∷ [] }) (some bev)
    if connects
        then (do done ← dispatch w bev events; freed ← free_bev done bev; ok (log freed base_free))
        else free_bev w bev

-- server.cpp

-- a connection is accepted, with what `bufferevent_socket_new` returns, or bytes have come for one
pub data ServerEvent : Type 0 where
  accepts : Option ℕ → ServerEvent
  reads : (bev : ℕ) → List ℕ → ServerEvent

module _ (parse : List ℕ → Option (List ℕ)) where
  abbrev pub print_message : World → Option (List ℕ) → World
  print_message w none = w
  print_message w (some content) = log w (received content)

  abbrev pub read_cb : World → ℕ → List ℕ → Run World
  read_cb w bev bytes = free_bev (print_message w (parse bytes)) bev

  -- libevent reports bytes only for a buffer event that is there.
  unfoldable pub serve : World → List ServerEvent → Run World
  serve w [] = ok w
  serve w (accepts made ∷ es) = new_bev w made >>= λ v. serve v es
  serve w (reads bev bytes ∷ es) = elim (is_live bev w.live) [
    | true ↦ read_cb w bev bytes >>= λ v. serve v es
    | false ↦ serve w es
  ]

  -- `main`, for what `event_base_new` and `evconnlistener_new_bind` return
  unfoldable pub server : Bool → Bool → List ServerEvent → Run World
  server false listens events = ok (record { live = []; calls = [] })
  server true false events = ok (record { live = []; calls = base_new ∷ [] })
  server true true events = do
    w ← serve (record { live = []; calls = base_new ∷ listener_new ∷ [] }) events
    ok (log (log w listener_free) base_free)
