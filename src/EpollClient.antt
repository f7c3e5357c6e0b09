-- ===== src/EpollClient.antt =====
-- epoll/client.cpp: `main` from its sockets on. Whoever answers is given: the descriptors, `none` for
-- -1, whether `connect` succeeds, and for each round the word typed and the bytes that come back, none
-- if `read` fails. `object` is what a `std::string` of a word is in memory, and the string is there
-- for one round only; C++ leaves undefined what becomes of it when its bytes are changed.
pub mod Unconnected
mod Tests
use learning_c.Common.{
  ℕ, Bool, true, false, Option, List, [], ◌∷◌, ◌++◌, ◌==◌, ◌&&◌, get_elem?, take, Run, ok, fault,
  access, ◌>>=◌, if◌then◌else◌,
}
use learning_c.EpollServer.{fill}

pub data Call : Type 0 where
  connect_failed : Call
  connect : (fd : Option ℕ) → (port : ℕ) → Call
  close print_descriptor : Option ℕ → Call
  send : (fd : Option ℕ) → List ℕ → Call
  print : List ℕ → Call

pub record Round : Type 0 where
  pub word : List ℕ
  pub received : List ℕ

-- `sizeof(ss)`
abbrev pub string_size : ℕ
string_size = 32

abbrev pub same : List ℕ → List ℕ → Bool
same [] [] = true
same [] (y ∷ ys) = false
same (x ∷ xs) [] = false
same (x ∷ xs) (y ∷ ys) = (x == y) && same xs ys

module _ (object : List ℕ → List ℕ) where
  -- one round of `while(1)`
  abbrev pub exchange : Option ℕ → Round → Run (List Call)
  exchange fd r =
      if same (fill (take string_size r.received) (object r.word)) (object r.word)
      then ok (send fd (object r.word) ∷ print r.word ∷ [])
      else fault

  unfoldable pub talk : Option ℕ → List Round → Run (List Call)
  talk fd [] = ok []
  talk fd (r ∷ rs) = do calls ← exchange fd r; later ← talk fd rs; ok (calls ++ later)

  abbrev pub begin : Option ℕ → Bool → List Call
  begin fd true = connect fd 8000 ∷ print_descriptor fd ∷ []
  begin fd false = connect fd 8000 ∷ connect_failed ∷ close fd ∷ []

  unfoldable pub client : List (Option ℕ) → Bool → List Round → Run (List Call)
  client fds connects rounds = do
    fd ← access (get_elem? fds 0)
    calls ← talk fd rounds
    ok (begin fd connects ++ calls)
