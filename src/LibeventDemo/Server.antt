-- ===== src/LibeventDemo/Server.antt =====
-- protobuf/demo/server.cpp: the buffer events of the server, and the messages that it prints.
use learning_c.Common.{
  ℕ, suc, ◌+◌, ◌≤◌, ◌≡◌, refl, ap, ◌∙◌, inl, inr, true, Option, none, some, List, [], ◌∷◌, ◌++◌,
  length, ok, arith, Bool-cases,
}
use learning_c.LibeventDemo.{
  World, Call, received, bev_free, bev_new, base_new, base_free, listener_new, listener_free,
  connected_printed, error_printed, written, is_live, remove, free_bev, print_message, read_cb,
  ServerEvent, accepts, reads, serve,
}

-- the messages that were printed
abbrev pub messages : List Call → ℕ
messages [] = 0
messages (received content ∷ cs) = suc (messages cs)
messages (base_new ∷ cs) = messages cs
messages (base_free ∷ cs) = messages cs
messages (listener_new ∷ cs) = messages cs
messages (listener_free ∷ cs) = messages cs
messages (connected_printed ∷ cs) = messages cs
messages (error_printed ∷ cs) = messages cs
messages (bev_new bev ∷ cs) = messages cs
messages (bev_free bev ∷ cs) = messages cs
messages (written bev bytes ∷ cs) = messages cs

messages-append : (xs ys : List Call) → messages (xs ++ ys) ≡ messages xs + messages ys
messages-append [] ys = omega arith
messages-append (received content ∷ xs) ys = omega (arith, messages-append xs ys)
messages-append (base_new ∷ xs) ys = messages-append xs ys
messages-append (base_free ∷ xs) ys = messages-append xs ys
messages-append (listener_new ∷ xs) ys = messages-append xs ys
messages-append (listener_free ∷ xs) ys = messages-append xs ys
messages-append (connected_printed ∷ xs) ys = messages-append xs ys
messages-append (error_printed ∷ xs) ys = messages-append xs ys
messages-append (bev_new bev ∷ xs) ys = messages-append xs ys
messages-append (bev_free bev ∷ xs) ys = messages-append xs ys
messages-append (written bev bytes ∷ xs) ys = messages-append xs ys

-- the connections that were accepted
abbrev pub accepted : List ServerEvent → ℕ
accepted [] = 0
accepted (accepts made ∷ es) = suc (accepted es)
accepted (reads bev bytes ∷ es) = accepted es

length-remove :
    (bev : ℕ) (bs : List ℕ) → is_live bev bs ≡ true → suc (length (remove bev bs)) ≡ length bs
length-remove bev [] h = absurd (ground arith)
length-remove bev (b ∷ bs) h = ground (arith, length-remove bev bs)

module _ (parse : List ℕ → Option (List ℕ)) where
  print_message-le :
      (w : World) (o : Option (List ℕ))
      → (messages (print_message parse w o).calls ≤ suc (messages w.calls))
        × ((print_message parse w o).live ≡ w.live)
  print_message-le w none = (omega arith, refl)
  print_message-le w (some content) =
      (omega (arith, messages-append w.calls (received content ∷ [])), refl)

  -- a read frees its buffer event, and prints one message at most
  read_cb_total :
      (w : World) (bev : ℕ) (bytes : List ℕ)
      → is_live bev w.live ≡ true
      → (v : World) × (read_cb parse w bev bytes ≡ ok v)
        × (messages v.calls + length v.live ≤ messages w.calls + length w.live)
  unfolding free_bev
  read_cb_total w bev bytes there =
      let m = print_message parse w (parse bytes) in
      let (le, same) = print_message-le w (parse bytes) in
      let still : is_live bev m.live ≡ true = ap (is_live bev) same ∙ there in
      let v : World = record m { live = remove bev m.live; calls = m.calls ++ bev_free bev ∷ [] } in
      let size : suc (length (remove bev m.live)) ≡ length m.live =
        length-remove bev m.live still in
      (
        v,
        ground (arith, still),
        omega (arith, le, size, ap length same, messages-append m.calls (bev_free bev ∷ [])),
      )

  -- the buffer events of all connections could be made
  abbrev pub AllMade : List ServerEvent → Type 0
  AllMade [] = Unit
  AllMade (accepts none ∷ es) = ⊥
  AllMade (accepts (some bev) ∷ es) = AllMade es
  AllMade (reads bev bytes ∷ es) = AllMade es

  -- Where the buffer event of every connection could be made, the server handles all events without
  -- a second free, and prints at most one message for each connection: what comes after the first
  -- bytes of a connection is lost.
  pub server_total :
      (w : World) (es : List ServerEvent)
      → AllMade es
      → (v : World) × (serve parse w es ≡ ok v)
        × (messages v.calls + length v.live ≤ messages w.calls + length w.live + accepted es)
  unfolding serve
  server_total w [] made = (w, refl, omega arith)
  server_total w (accepts none ∷ es) made = absurd made
  server_total w (accepts (some bev) ∷ es) made =
      let m : World = record { live = bev ∷ w.live; calls = w.calls ++ bev_new bev ∷ [] } in
      let (v, ran, le) = server_total m es made in
      (v, ran, omega (arith, le, messages-append w.calls (bev_new bev ∷ [])))
  server_total w (reads bev bytes ∷ es) made = elim (Bool-cases (is_live bev w.live)) [
    | inl there ↦
        let (m, first, le) = read_cb_total w bev bytes there in
        let (v, ran, le_rest) = server_total m es made in
        (v, ground (arith, there, first, ran), omega (arith, le, le_rest))
    | inr gone ↦ let (v, ran, le) = server_total w es made in (v, ground (arith, gone, ran), le)
  ]
