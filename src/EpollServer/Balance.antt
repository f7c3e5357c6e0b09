-- ===== src/EpollServer/Balance.antt =====
-- epoll/server.cpp: how often each descriptor is opened, watched and closed.
use learning_c.Common.{
  ℕ, ◌+◌, ◌≡◌, ◌∙◌, refl, sym, subst, Bool, true, false, Option, none, some, List, [], ◌∷◌, ◌++◌,
  ◌==◌, if◌then◌else◌, length, take, set, ok, >>=-eq-ok, arith, Bool-cases, Option-cases, inl, inr,
}
use learning_c.EpollServer.{
  Call, opened, accepted, added, closed, printed, sent, Answers, Server, clear_buffer, log,
  c_string, fill, watch, accept_client, answer_client, drop_client, read_client, handle, handle_all,
}

-- 1 for a call that opens, watches or closes `d`
abbrev pub opens : ℕ → Call → ℕ
opens d (opened fd) = if fd == d then 1 else 0
opens d (accepted fd) = if fd == d then 1 else 0
opens d (added fd) = 0
opens d (closed fd) = 0
opens d (printed t) = 0
opens d (sent fd t) = 0

abbrev pub watches : ℕ → Call → ℕ
watches d (opened fd) = 0
watches d (accepted fd) = 0
watches d (added fd) = if fd == d then 1 else 0
watches d (closed fd) = 0
watches d (printed t) = 0
watches d (sent fd t) = 0

abbrev pub closes : ℕ → Call → ℕ
closes d (opened fd) = 0
closes d (accepted fd) = 0
closes d (added fd) = 0
closes d (closed fd) = if fd == d then 1 else 0
closes d (printed t) = 0
closes d (sent fd t) = 0

abbrev pub tally : (Call → ℕ) → List Call → ℕ
tally f [] = 0
tally f (c ∷ cs) = f c + tally f cs

tally-append : (f : Call → ℕ) (xs ys : List Call) → tally f (xs ++ ys) ≡ tally f xs + tally f ys
tally-append f [] ys = omega arith
tally-append f (x ∷ xs) ys = omega (arith, tally-append f xs ys)

-- 1 if `read` fails or finds the end of what a client sends
abbrev pub at_end : Option (List ℕ) → ℕ
at_end none = 1
at_end (some []) = 1
at_end (some (b ∷ bs)) = 0

-- 1 if `accept` returns `d` and `epoll_ctl` does not take it
abbrev pub refused : ℕ → Option ℕ → Bool → ℕ
refused d none adds = 0
refused d (some fd) true = 0
refused d (some fd) false = if fd == d then 1 else 0

-- the events on `d` at which the client has hung up, and the clients with `d` that are not watched
abbrev pub hang_ups : ℕ → ℕ → List (ℕ × Answers) → ℕ
hang_ups server_fd d [] = 0
hang_ups server_fd d ((fd, a) ∷ events) =
    (if fd == server_fd then 0 else (if fd == d then at_end a.reads else 0))
    + hang_ups server_fd d events

abbrev pub refusals : ℕ → ℕ → List (ℕ × Answers) → ℕ
refusals server_fd d [] = 0
refusals server_fd d ((fd, a) ∷ events) =
    (if fd == server_fd then refused d a.accepts a.adds else 0) + refusals server_fd d events

-- From `s` to `t`, with that many clients at `d` hung up and refused: those are closed, and what is
-- opened is watched but for the refused ones.
abbrev pub Accounts : ℕ → Server → Server → ℕ → ℕ → Type 0
Accounts d s t hung no_watch =
    (tally (closes d) t.calls ≡ tally (closes d) s.calls + hung + no_watch)
    × (tally (opens d) t.calls + tally (watches d) s.calls
        ≡ tally (opens d) s.calls + tally (watches d) t.calls + no_watch)
    × (t.server_fd ≡ s.server_fd)

logged :
    (d : ℕ) (s : Server) (cs : List Call) (hung no_watch : ℕ)
    → tally (closes d) cs ≡ hung + no_watch
    → tally (opens d) cs ≡ tally (watches d) cs + no_watch
    → Accounts d s (log s cs) hung no_watch
logged d s cs hung no_watch c o = (
  omega (arith, tally-append (closes d) s.calls cs, c),
  omega (arith, tally-append (opens d) s.calls cs, tally-append (watches d) s.calls cs, o),
  refl,
)

unchanged : (d : ℕ) (s : Server) → Accounts d s s 0 0
unchanged d s = (omega arith, omega arith, refl)

watch-Accounts :
    (s : Server) (fd d : ℕ) (adds : Bool)
    → Accounts d s (watch s fd adds) 0 (refused d (some fd) adds)
watch-Accounts s fd d true =
    logged d s (accepted fd ∷ added fd ∷ []) 0 0 (ground arith) (ground arith)
watch-Accounts s fd d false =
    logged d s (accepted fd ∷ closed fd ∷ []) 0 (if fd == d then 1 else 0) (ground arith)
      (ground arith)

accept_client-Accounts :
    (s : Server) (d : ℕ) (a : Answers)
    → Accounts d s (accept_client s a) 0 (refused d a.accepts a.adds)
accept_client-Accounts s d a = elim (Option-cases a.accepts) [
  | inl n ↦
      subst (λ o. Accounts d s (accept_client s (record a { accepts = o })) 0 (refused d o a.adds))
        (sym n) (unchanged d s)
  | inr (fd, e) ↦
      subst (λ o. Accounts d s (accept_client s (record a { accepts = o })) 0 (refused d o a.adds))
        (sym e) (watch-Accounts s fd d a.adds)
]

drop_client-Accounts :
    (s : Server) (fd d : ℕ) → Accounts d s (drop_client s fd) (if fd == d then 1 else 0) 0
drop_client-Accounts s fd d =
    logged d s (closed fd ∷ []) (if fd == d then 1 else 0) 0 (ground arith) (ground arith)

answer_client-Accounts :
    (s t : Server) (fd d : ℕ) (bytes : List ℕ)
    → answer_client s fd bytes ≡ ok t
    → Accounts d s t 0 0
unfolding answer_client
answer_client-Accounts s t fd d bytes e =
    let filled = fill bytes s.buffer in
    let (text, _, last) = >>=-eq-ok (c_string filled) _ e in
    let cs = printed text ∷ sent fd (take (length bytes) (set filled 0 49)) ∷ [] in
    let same : clear_buffer (log s cs) ≡ t = ground (arith, last) in
    subst (λ u. Accounts d s u 0 0) same (logged d s cs 0 0 (ground arith) (ground arith))

read_client-Accounts :
    (s t : Server) (fd d : ℕ) (o : Option (List ℕ))
    → read_client s fd o ≡ ok t
    → Accounts d s t (if fd == d then at_end o else 0) 0
read_client-Accounts s t fd d none e =
    let same : drop_client s fd ≡ t = ground arith in
    subst (λ u. Accounts d s u (if fd == d then 1 else 0) 0) same (drop_client-Accounts s fd d)
read_client-Accounts s t fd d (some []) e =
    let same : drop_client s fd ≡ t = ground arith in
    subst (λ u. Accounts d s u (if fd == d then 1 else 0) 0) same (drop_client-Accounts s fd d)
read_client-Accounts s t fd d (some (b ∷ bs)) e =
    let (closed_same, opened_same, fd_same) = answer_client-Accounts s t fd d (b ∷ bs) e in
    (ground (arith, closed_same), opened_same, fd_same)

handle-Accounts :
    (s t : Server) (fd d : ℕ) (a : Answers)
    → handle s fd a ≡ ok t
    → Accounts d s t (hang_ups s.server_fd d ((fd, a) ∷ [])) (refusals s.server_fd d ((fd, a) ∷ []))
unfolding handle
handle-Accounts s t fd d a e = elim (Bool-cases (fd == s.server_fd)) [
  | inl y ↦
      let same : accept_client s a ≡ t = ground (arith, e, y) in
      let (c, o, f) =
        subst (λ u. Accounts d s u 0 (refused d a.accepts a.adds)) same
          (accept_client-Accounts s d a) in
      (ground (arith, c, y), ground (arith, o, y), f)
  | inr n ↦
      let (c, o, f) = read_client-Accounts s t fd d a.reads (ground (arith, e, n)) in
      (ground (arith, c, n), ground (arith, o, n), f)
]

-- Whatever the system answers while the events of `epoll_wait` are handled: a descriptor is closed
-- once for each event at which its client has hung up, and once for each client that was accepted
-- with it but not put under watch, and never else; and it is put under watch once for each
-- other client that was accepted with it. So what is left open is under watch.
pub handle_all-Accounts :
    (s t : Server) (events : List (ℕ × Answers)) (d : ℕ)
    → handle_all s events ≡ ok t
    → Accounts d s t (hang_ups s.server_fd d events) (refusals s.server_fd d events)
unfolding handle_all
handle_all-Accounts s t [] d e =
    let same : s ≡ t = ground arith in subst (λ u. Accounts d s u 0 0) same (unchanged d s)
handle_all-Accounts s t ((fd, a) ∷ events) d e =
    let (u, first, rest) = >>=-eq-ok (handle s fd a) _ e in
    let (c, o, f) = handle-Accounts s u fd d a first in
    let (c₂, o₂, f₂) =
      subst (λ k. Accounts d u t (hang_ups k d events) (refusals k d events)) f
        (handle_all-Accounts u t events d rest) in
    (omega (arith, c, c₂), omega (arith, o, o₂), f₂ ∙ f)
