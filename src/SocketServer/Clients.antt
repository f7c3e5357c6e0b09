-- ===== src/SocketServer/Clients.antt =====
-- socket/socket.c: which client a thread serves, and when it reads a descriptor that is gone.
use learning_c.Common.{
  ℕ, suc, ◌<◌, ◌-◌, ◌≡◌, refl, ap, sym, subst, ◌∙◌, none, some, List, [], ◌∷◌, length,
  length-append, length-set, get_elem?, get_elem?-concat, get_elem?-set_here, Option, ok, >>=-eq-ok,
  arith, ℤ,
}
use learning_c.EpollServer.{c_string, fill, zeros}
use learning_c.SocketServer.{
  Call, closed, Place, starting, serving, ended, Server, Event, accept, end_round, turn, start, go,
  log, new_client, read_arg, answer, work, step, run, buffer_size,
}

-- There is a thread for each client, and the variable of the round holds the last client.
record Inv (s : Server) : Type 0 where
  rounds : length s.clients ≡ length s.threads
  current :
      (i : ℕ) (fd : ℤ)
      → s.clientfd ≡ some fd
      → suc i ≡ length s.threads
      → get_elem? s.clients i ≡ some fd

-- a step that moves a thread and makes calls
moved : (s : Server) (cs : List Call) (i : ℕ) (p : Place) → Inv s → Inv (log (go s i p) cs)
moved s cs i p inv = record {
  rounds = omega (arith, inv.rounds, length-set s.threads i p);
  current = λ j fd h l. inv.current j fd h (l ∙ length-set s.threads i p);
}

new_client-Inv : (s : Server) (fd : ℤ) (o : Option ℤ) → Inv s → Inv (new_client s fd o)
new_client-Inv s fd (some old) inv = inv
new_client-Inv s fd none inv = record {
  rounds = omega (
    arith,
    inv.rounds,
    length-append s.clients (fd ∷ []),
    length-append s.threads (starting ∷ []),
  );
  current = λ i g h l. ground (
    arith,
    get_elem?-concat s.clients fd i,
    inv.rounds,
    length-append s.threads (starting ∷ []),
    h,
    l,
  );
}

read_arg-Inv : (s t : Server) (i : ℕ) (o : Option ℤ) → read_arg s i o ≡ ok t → Inv s → Inv t
read_arg-Inv s t i none h inv = absurd (ground arith)
read_arg-Inv s t i (some fd) h inv =
    let same : go s i (serving fd) ≡ t = ground arith in
    subst Inv same (record {
      rounds = omega (arith, inv.rounds, length-set s.threads i (serving fd));
      current = λ j g k l. inv.current j g k (l ∙ length-set s.threads i (serving fd));
    })

answer-Inv :
    (s t : Server) (i : ℕ) (fd : ℤ) (received : Option (List ℕ))
    → answer s i fd received ≡ ok t
    → Inv s
    → Inv t
unfolding answer
answer-Inv s t i fd none h inv = absurd (ground arith)
answer-Inv s t i fd (some []) h inv =
    let same : log (go s i ended) (closed fd ∷ []) ≡ t = ground arith in
    subst Inv same (moved s (closed fd ∷ []) i ended inv)
answer-Inv s t i fd (some (b ∷ bs)) h inv =
    let (text, _, last) = >>=-eq-ok (c_string (fill (b ∷ bs) (zeros buffer_size))) _ h in
    let clients : t.clients ≡ s.clients = ground arith in
    let threads : t.threads ≡ s.threads = ground arith in
    let clientfd : t.clientfd ≡ s.clientfd = ground arith in
    record {
      rounds = ap length clients ∙ inv.rounds ∙ sym (ap length threads);
      current = λ j g k l.
          ap (λ r. get_elem? r j) clients
          ∙ inv.current j g (sym clientfd ∙ k) (l ∙ ap length threads);
    }

work-Inv :
    (s t : Server) (i : ℕ) (received : Option (List ℕ)) (o : Option Place)
    → get_elem? s.threads i ≡ o
    → work s i received o ≡ ok t
    → Inv s
    → Inv t
work-Inv s t i received none here h inv = let same : s ≡ t = ground arith in subst Inv same inv
work-Inv s t i received (some starting) here h inv = read_arg-Inv s t i s.clientfd h inv
work-Inv s t i received (some (serving fd)) here h inv = answer-Inv s t i fd received h inv
work-Inv s t i received (some ended) here h inv =
    let same : s ≡ t = ground arith in subst Inv same inv

step-Inv : (s t : Server) (e : Event) → step s e ≡ ok t → Inv s → Inv t
unfolding step
step-Inv s t (accept fd) h inv =
    let same : new_client s fd s.clientfd ≡ t = ground arith in
    subst Inv same (new_client-Inv s fd s.clientfd inv)
step-Inv s t end_round h inv =
    let same : record s { clientfd = none } ≡ t = ground arith in
    subst Inv same (record { rounds = inv.rounds; current = λ i fd k l. absurd (ground arith) })
step-Inv s t (turn i received) h inv = work-Inv s t i received (get_elem? s.threads i) refl h inv

run-Inv : (es : List Event) (s t : Server) → run s es ≡ ok t → Inv s → Inv t
unfolding run
run-Inv [] s t h inv = let same : s ≡ t = ground arith in subst Inv same inv
run-Inv (e ∷ es) s t h inv =
    let (u, first, rest) = >>=-eq-ok (step s e) (λ u. run u es) h in
    run-Inv es u t rest (step-Inv s u e first inv)

start-Inv : Inv start
start-Inv = record { rounds = refl; current = λ i fd h l. absurd (ground arith) }

-- Along every schedule of `main` and the threads that returns: a thread that has not read its argument
-- when a later client than its own has been accepted, and the round of that client lasts, gets in
-- its next step the descriptor of the client accepted last, for which there is a later thread.
pub wrong_client :
    (es : List Event) (s : Server) (i : ℕ) (fd : ℤ) (received : Option (List ℕ))
    → run start es ≡ ok s
    → get_elem? s.threads i ≡ some starting
    → suc i < length s.threads
    → s.clientfd ≡ some fd
    → (t : Server) × (last : ℕ) × (step s (turn i received) ≡ ok t)
      × (get_elem? t.threads i ≡ some (serving fd))
      × (i < last)
      × (suc last ≡ length t.clients)
      × (get_elem? t.clients last ≡ some fd)
unfolding step
wrong_client es s i fd received h here late now =
    let inv = run-Inv es start s h start-Inv in
    let last = length s.threads - 1 in
    let is_last : suc last ≡ length s.threads = omega (arith, late) in
    (
      go s i (serving fd),
      last,
      ground (arith, here, now),
      get_elem?-set_here s.threads i (serving fd) here,
      omega (arith, late, is_last),
      omega (arith, inv.rounds, is_last),
      inv.current last fd now is_last,
    )
