-- ===== src/EpollServer/StartUp.antt =====
-- epoll/server.cpp: the set-up of the server and its failures.
use learning_c.Common.{ℕ, ◌≡◌, ◌⊎◌, inl, inr, false, none, some, arith, Bool-cases, Option-cases}
use learning_c.EpollServer.{Setup, start_up}
use learning_c.EpollServer.Balance.{opens, closes, tally}

-- Where the set-up fails, every descriptor that it opened is closed, unless `bind` was what failed:
-- then the socket stays open.
pub start_up-failure :
    (s : Setup) (d : ℕ)
    → (start_up s).server ≡ none
    → (tally (opens d) (start_up s).trace ≡ tally (closes d) (start_up s).trace)
      ⊎ ((s.binds ≡ false)
          × ((fd : ℕ) × (s.socket ≡ some fd)
              × (tally (closes fd) (start_up s).trace ≡ 0)
              × (tally (opens fd) (start_up s).trace ≡ 1)))
unfolding start_up
start_up-failure s d h = elim (Option-cases s.socket) [
  | inl no_socket ↦ inl (ground (arith, no_socket))
  | inr (fd, got) ↦ elim (Bool-cases s.binds) [
    | inr not_bound ↦
        inr (not_bound, (fd, got, ground (arith, got, not_bound), ground (arith, got, not_bound)))
    | inl bound ↦ elim (Bool-cases s.listens) [
      | inr deaf ↦ inl (ground (arith, got, bound, deaf))
      | inl listens ↦ elim (Option-cases s.epoll) [
        | inl no_epoll ↦ inl (ground (arith, got, bound, listens, no_epoll))
        | inr (ep, made) ↦ elim (Bool-cases s.registers) [
          | inr refused ↦ inl (ground (arith, got, bound, listens, made, refused))
          | inl registered ↦ absurd (ground (arith, h, got, bound, listens, made, registered))
        ]
      ]
    ]
  ]
]
