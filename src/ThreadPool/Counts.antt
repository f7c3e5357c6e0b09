-- ===== src/ThreadPool/Counts.antt =====
-- ThreadPool/ThreadPool_adv.cpp: counting the workers of a kind.
use learning_c.Common.{
  length, ℕ, zero, suc, ◌+◌, ◌≤◌, ◌≡◌, refl, List, [], ◌∷◌, map, get_elem?, set, some, arith,
}
use learning_c.ThreadPool.{
  Worker, woken, asleep_one, exited_one, checking, asleep, exited, running, total,
}

module _ {T : Type 0} where
  pub total-set :
      (f : Worker T → ℕ) (ws : List (Worker T)) (i : ℕ) (old new : Worker T)
      → get_elem? ws i ≡ some old
      → total f (set ws i new) + f old ≡ total f ws + f new
  unfolding total
  total-set f [] i old new h = absurd (ground arith)
  total-set f (w ∷ ws) zero old new h = ground arith
  total-set f (w ∷ ws) (suc i) old new h = omega (arith, total-set f ws i old new h)

  pub le-total :
      (f : Worker T → ℕ) (ws : List (Worker T)) (i : ℕ) (w : Worker T)
      → get_elem? ws i ≡ some w
      → f w ≤ total f ws
  unfolding total
  le-total f [] i w h = absurd (ground arith)
  le-total f (x ∷ ws) zero w h = ground arith
  le-total f (x ∷ ws) (suc i) w h = omega (arith, le-total f ws i w h)

  pub asleep-map-woken : (ws : List (Worker T)) → total asleep_one (map woken ws) ≡ 0
  unfolding total
  asleep-map-woken [] = refl
  asleep-map-woken (checking ∷ ws) = omega (arith, asleep-map-woken ws)
  asleep-map-woken (asleep ∷ ws) = omega (arith, asleep-map-woken ws)
  asleep-map-woken (exited ∷ ws) = omega (arith, asleep-map-woken ws)
  asleep-map-woken (running t ∷ ws) = omega (arith, asleep-map-woken ws)

  pub exited-map-woken :
      (ws : List (Worker T)) → total exited_one (map woken ws) ≡ total exited_one ws
  unfolding total
  exited-map-woken [] = refl
  exited-map-woken (checking ∷ ws) = omega (arith, exited-map-woken ws)
  exited-map-woken (asleep ∷ ws) = omega (arith, exited-map-woken ws)
  exited-map-woken (exited ∷ ws) = omega (arith, exited-map-woken ws)
  exited-map-woken (running t ∷ ws) = omega (arith, exited-map-woken ws)

  pub length-map-woken : (ws : List (Worker T)) → length (map woken ws) ≡ length ws
  length-map-woken [] = refl
  length-map-woken (w ∷ ws) = omega (arith, length-map-woken ws)
