-- ===== src/EpollClient/Unconnected.antt =====
-- epoll/client.cpp: the rounds after a `connect` that failed.
use learning_c.Common.{ℕ, ◌≡◌, refl, true, false, Option, List, [], ◌∷◌, All, ok, arith}
use learning_c.EpollClient.{
  Call, Round, connect_failed, connect, close, send, print, same, talk, client,
}

same_refl : (xs : List ℕ) → same xs xs ≡ true
same_refl [] = refl
same_refl (x ∷ xs) = ground (arith, same_refl xs)

module _ (object : List ℕ → List ℕ) where
  -- what each word makes the client do
  abbrev pub sent_and_printed : Option ℕ → List Round → List Call
  sent_and_printed fd [] = []
  sent_and_printed fd (r ∷ rs) = send fd (object r.word) ∷ print r.word ∷ sent_and_printed fd rs

  talk-unanswered :
      (fd : Option ℕ) (rs : List Round)
      → All (λ r. r.received ≡ []) rs
      → talk object fd rs ≡ ok (sent_and_printed fd rs)
  unfolding talk
  talk-unanswered fd [] h = refl
  talk-unanswered fd (r ∷ rs) (none_back, h) =
      ground (arith, none_back, same_refl (object r.word), talk-unanswered fd rs h)

  -- When `connect` fails, so that nothing is read back either, the client closes the descriptor, then
  -- sends every word that is typed to the descriptor that it has closed, and prints the word as if it
  -- had come back.
  pub client-unconnected :
      (fd : Option ℕ) (fds : List (Option ℕ)) (rs : List Round)
      → All (λ r. r.received ≡ []) rs
      → client object (fd ∷ fds) false rs
        ≡ ok (connect fd 8000 ∷ connect_failed ∷ close fd ∷ sent_and_printed fd rs)
  unfolding client
  client-unconnected fd fds rs h = ground (arith, talk-unanswered fd rs h)
