-- ===== src/Deadlock/Cycle/Total.antt =====
-- deadlock/deadlock.cpp, `check_dead_lock`: its fuel, its indices and the array `path`.
use learning_c.Common.{
  ℕ, zero, suc, ◌+◌, ◌<◌, ◌≤◌, ◌≡◌, ◌∙◌, refl, inl, inr, Bool, true, false, some, List, [], ◌∷◌,
  Memᴰ, ◌==◌, reverse, tail, ap, All, arith, if◌then◌else◌, length, get_elem?-lt, get_elem?_total,
  update, Run, ok, Bool-cases,
}
use mathlib.Core.List.{reverse_aux}
use learning_c.Deadlock.Graph.{Pair, TaskGraph, max_size, search_vertex}
use learning_c.Deadlock.Graph.Valid.{IsValid, search_vertex-eq-some}
use learning_c.Deadlock.Cycle.{
  Search, pop, mark, thread_ids, print_deadlock, each, descend, dfs, reset_visited, restart,
  search_for_cycle, check_from, check_dead_lock,
}
use learning_c.Deadlock.Cycle.Walk.{dfs-Grows, reset_visited-root}

-- how many of the first `n` marks are down
abbrev unvisited : ℕ → (ℕ → Bool) → ℕ
unvisited zero v = 0
unvisited (suc n) v = unvisited n v + (if v n then 0 else 1)

unvisited-le : (n : ℕ) (v : ℕ → Bool) → unvisited n v ≤ n
unvisited-le zero v = omega arith
unvisited-le (suc n) v = ground (arith, unvisited-le n v)

unvisited_mono :
    (n : ℕ) (v u : ℕ → Bool) → ((w : ℕ) → v w ≡ true → u w ≡ true) → unvisited n u ≤ unvisited n v
unvisited_mono zero v u h = omega arith
unvisited_mono (suc n) v u h = ground (arith, unvisited_mono n v u h, h n)

unvisited-update_of_le :
    (n i : ℕ) (v : ℕ → Bool) → n ≤ i → unvisited n (update v i true) ≡ unvisited n v
unvisited-update_of_le zero i v h = refl
unvisited-update_of_le (suc n) i v h = ground (arith, unvisited-update_of_le n i v)

unvisited-update :
    (n i : ℕ) (v : ℕ → Bool)
    → i < n
    → v i ≡ false
    → unvisited n (update v i true) + 1 ≡ unvisited n v
unvisited-update zero i v h e = absurd (omega arith)
unvisited-update (suc n) i v h e = elim (Bool-cases (i == n)) [
  | inl last ↦ ground (arith, unvisited-update_of_le n i v)
  | inr below ↦ ground (arith, unvisited-update n i v)
]

unvisited-lt : (n i : ℕ) (v : ℕ → Bool) → i < n → v i ≡ true → unvisited n v < n
unvisited-lt zero i v h e = absurd (omega arith)
unvisited-lt (suc n) i v h e = elim (Bool-cases (i == n)) [
  | inl last ↦ ground (arith, unvisited-le n v)
  | inr below ↦ ground (arith, unvisited-lt n i v)
]

All-reverse_aux :
    (n : ℕ) (xs ys : List ℕ)
    → All (λ j. j < n) xs
    → All (λ j. j < n) ys
    → All (λ j. j < n) (reverse_aux xs ys)
All-reverse_aux n [] ys hx hy = hy
All-reverse_aux n (x ∷ xs) ys hx hy = All-reverse_aux n xs (x ∷ ys) hx.1 (hx.0, hy)

module _ (g : TaskGraph) (valid : IsValid g) where
  abbrev n : ℕ
  n = length g.vertex_list

  -- The path holds indices of vertices, and no more of them than have been marked.
  record Fits (s : Search) : Type 0 where
    room : length s.path + unvisited n s.visited ≤ n
    on : All (λ j. j < n) s.path

  thread_ids_total : (is : List ℕ) → All (λ j. j < n) is → (ts : List ℕ) × (thread_ids g is ≡ ok ts)
  thread_ids_total [] h = ([], refl)
  thread_ids_total (i ∷ is) h =
      let (v, at) = get_elem?_total g.vertex_list i h.0 in
      let (ts, rest) = thread_ids_total is h.1 in (v.pair.th_id ∷ ts, rw (at, rest))

  each_total :
      (P : Search → Type 0) (visit : Pair → Search → Run Search) (ps : List Pair)
      → ((p : Pair) (s : Search) → Memᴰ p ps → P s → (t : Search) × (visit p s ≡ ok t) × P t)
      → (s : Search) → P s
      → (t : Search) × (each visit ps s ≡ ok t) × P t
  unfolding each
  each_total P visit [] step s h = (s, refl, h)
  each_total P visit (p ∷ ps) step s h =
      let (m, first, mid) = step p s (Memᴰ.head refl) h in
      let (t, rest, end) = each_total P visit ps (λ q r mem. step q r (Memᴰ.tail mem)) m mid in
      (t, rw first rest, end)

  print_deadlock_total :
      (s : Search)
      → All (λ j. j < n) s.path
      → (t : Search) × (print_deadlock g s ≡ ok t) × (t.path ≡ s.path)
  unfolding print_deadlock
  print_deadlock_total s h =
      let (line, e) = thread_ids_total (reverse s.path) (All-reverse_aux n s.path [] h tt) in
      (record s { printed = line ∷ s.printed }, rw e, refl)

  -- A state within a chain: the path is the one at its start, and fewer than `k` marks are down.
  record Within (k : ℕ) (path : List ℕ) (s : Search) : Type 0 where
    fits : Fits s
    left : unvisited n s.visited < k
    same : s.path ≡ path

  abbrev Ends : ℕ → Type 0
  Ends k =
      (idx : ℕ) (s : Search)
      → idx < n
      → unvisited n s.visited < k
      → Fits s
      → (t : Search) × (dfs g k idx s ≡ ok t) × (t.path ≡ idx ∷ s.path)

  descend_total :
      (k : ℕ) (path : List ℕ)
      → Ends k
      → (p : Pair) (i : ℕ) (s : Search) → search_vertex g p ≡ some i
      → Within k path s
      → (t : Search) × (descend g (dfs g k) p s ≡ ok t) × Within k path t
  descend_total k path ih p i s at h =
      let (w, here, _) = search_vertex-eq-some g p i at in
      let (u, run, top) = ih i s (get_elem?-lt g.vertex_list i here) h.left h.fits in
      let fewer = unvisited_mono n s.visited u.visited (dfs-Grows g k i s u run) in
      let back : tail u.path ≡ s.path = ap tail top in
      (
        pop u,
        rw (at, run),
        record {
          fits = record { room = rw back (omega (arith, h.fits.room)); on = rw back h.fits.on };
          left = omega (arith, h.left);
          same = back ∙ h.same;
        },
      )

  dfs_total : (k : ℕ) → Ends k
  unfolding dfs
  dfs_total zero idx s lt left fits = absurd (omega arith)
  dfs_total (suc k) idx s lt left fits =
      let (ver, at) = get_elem?_total g.vertex_list idx lt in
      let small : length s.path < max_size + 1 = omega (arith, fits.room, valid.small) in
      elim (Bool-cases (s.visited idx)) [
        | inl old ↦
            let hit = record s { path = idx ∷ s.path } in
            let (t, shown, same) = print_deadlock_total hit (lt, fits.on) in
            (record t { deadlock = true }, ground arith, same)
        | inr new ↦
            let start = record (mark idx s) { path = idx ∷ s.path } in
            let fewer = unvisited-update n idx s.visited lt new in
            let (t, run, end) =
              each_total (Within k (idx ∷ s.path)) (descend g (dfs g k)) ver.next
                (λ p r mem h.
                  let (i, to) = valid.closed idx ver p at mem in
                  descend_total k (idx ∷ s.path) (dfs_total k) p i r to h)
                start
                (record {
                  fits = record { room = omega (arith, fits.room); on = (lt, fits.on) };
                  left = omega arith;
                  same = refl;
                }) in
            (t, ground arith, end.same)
      ]

  restart_total :
      (idx : ℕ) (p : Pair) (i : ℕ) (s : Search)
      → idx < n
      → search_vertex g p ≡ some i
      → s.visited idx ≡ true
      → (t : Search) × (restart g (n + 1) idx p s ≡ ok t) × (t.visited idx ≡ true)
  unfolding restart
  restart_total idx p i s lt at root =
      let kept = reset_visited-root idx n s.visited ∙ root in
      let (w, here, _) = search_vertex-eq-some g p i at in
      let r = record s { visited = reset_visited idx n s.visited; path = idx ∷ [] } in
      let fewer = unvisited-lt n idx r.visited lt kept in
      let (t, run, top) =
        dfs_total (n + 1) i r (get_elem?-lt g.vertex_list i here) (omega arith)
          (record { room = omega arith; on = (lt, tt) }) in
      (t, rw at run, dfs-Grows g (n + 1) i r t run idx kept)

  search_for_cycle_total :
      (idx : ℕ) (s : Search) → idx < n → (t : Search) × (search_for_cycle g (n + 1) idx s ≡ ok t)
  unfolding search_for_cycle
  search_for_cycle_total idx s lt =
      let (ver, at) = get_elem?_total g.vertex_list idx lt in
      let (t, run, _) =
        each_total (λ r. r.visited idx ≡ true) (restart g (n + 1) idx) ver.next
          (λ p r mem root.
            let (i, to) = valid.closed idx ver p at mem in restart_total idx p i r lt to root)
          (record (mark idx s) { path = idx ∷ [] }) (ground arith) in
      (t, rw at run)

  check_from_total :
      (rounds i : ℕ) (s : Search)
      → i + rounds ≡ n
      → (t : Search) × (check_from g (n + 1) rounds i s ≡ ok t)
  unfolding check_from
  check_from_total zero i s e = (s, refl)
  check_from_total (suc rounds) i s e = elim (Bool-cases s.deadlock) [
    | inl raised ↦ (s, ground arith)
    | inr down ↦
        let (m, first) = search_for_cycle_total i s (omega arith) in
        let (t, rest) = check_from_total rounds (suc i) m (omega arith) in (t, ground arith)
  ]

-- On a valid graph the check ends: no index is out of bounds and the recursion is not cut short.
pub check_dead_lock_total :
    (g : TaskGraph) (s : Search) → IsValid g → (t : Search) × (check_dead_lock g s ≡ ok t)
unfolding check_dead_lock
check_dead_lock_total g s valid = check_from_total g valid (length g.vertex_list) 0 _ (omega arith)
