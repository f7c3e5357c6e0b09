-- ===== src/Deadlock/Locks/Table.antt =====
-- deadlock/deadlock.cpp: the table of locks as a whole, its size, its free entries, and validity of
-- the graph under each step of the hook.
use learning_c.Common.{
  ℕ, suc, ◌≡◌, ◌∙◌, ap, sym, subst, refl, inl, inr, false, none, List, [], ◌∷◌, arith, length,
  length-set, get_elem?, Run, ok, fault, >>=-eq-ok, access, Bool-cases, Option-cases, increment,
  decrement, is_zero, All,
}
use learning_c.Deadlock.Graph.{Pair, TaskGraph, verify_edge}
use learning_c.Deadlock.Graph.Valid.{IsValid}
use learning_c.Deadlock.Graph.Keep.{add_vertex-IsValid, add_edge-IsValid, remove_edge-IsValid}
use learning_c.Deadlock.Locks.{
  search_empty_from, search_empty_lock, fill_empty, register_wait, take_over, link_edge,
  unlink_edge, search_lock, set_lock, thread_pair, lock_before, lock_after, unlock_after,
}
use learning_c.Deadlock.Locks.Parts.{
  register_wait-eq-ok, take_over-eq-ok, lock_list-add_vertex, set_lock-IsValid,
}
use learning_c.Deadlock.Locks.Waits.{lock_list-link_edge, lock_list-unlink_edge}

link_edge-IsValid :
    (g g' : TaskGraph) (u v : Pair) → IsValid g → link_edge g u v ≡ ok g' → IsValid g'
unfolding link_edge
link_edge-IsValid g g' u v valid h =
    let (b, e, run) = >>=-eq-ok (verify_edge g u v) _ h in
    elim (Bool-cases b) [
      | inl linked ↦ let same : g ≡ g' = ground arith in subst IsValid same valid
      | inr new ↦ add_edge-IsValid g g' u v valid (ground arith)
    ]

unlink_edge-IsValid :
    (g g' : TaskGraph) (u v : Pair) → IsValid g → unlink_edge g u v ≡ ok g' → IsValid g'
unfolding unlink_edge
unlink_edge-IsValid g g' u v valid h =
    let (b, e, run) = >>=-eq-ok (verify_edge g u v) _ h in
    elim (Bool-cases b) [
      | inl linked ↦ remove_edge-IsValid g g' u v valid (ground arith)
      | inr none_there ↦ let same : g ≡ g' = ground arith in subst IsValid same valid
    ]

-- A step of a thread: round its lock operation, or after its unlock.
pub data Hook : Type 0 where
  before after : (t lock : ℕ) → Hook
  unlocked : (lock : ℕ) → Hook

unfoldable pub perform : Pair → TaskGraph → Hook → Run TaskGraph
perform junk g (before t lock) = lock_before junk g t lock
perform junk g (after t lock) = lock_after junk g t lock
perform junk g (unlocked lock) = unlock_after g lock

register_wait-keeps :
    (junk : Pair) (g g' : TaskGraph) (t idx : ℕ)
    → IsValid g
    → register_wait junk g t idx ≡ ok g'
    → IsValid g' × (length g'.lock_list ≡ length g.lock_list)
register_wait-keeps junk g g' t idx valid h =
    let (g₁, entry, g₂, a, at, b, last) = register_wait-eq-ok junk g g' t idx h in
    let raised = record entry { degress = increment entry.degress } in
    let u = thread_pair junk t in
    let v = thread_pair junk entry.th_id in
    let valid₁ = set_lock-IsValid g₁ idx raised (add_vertex-IsValid g valid g₁ u a) in
    let valid₂ = add_vertex-IsValid (set_lock g₁ idx raised) valid₁ g₂ v b in
    (
      link_edge-IsValid g₂ g' u v valid₂ last,
      ap length (lock_list-link_edge g₂ g' u v last)
          ∙ ap length (lock_list-add_vertex (set_lock g₁ idx raised) g₂ v b)
          ∙ length-set g₁.lock_list idx raised
          ∙ ap length (lock_list-add_vertex g g₁ u a),
    )

take_over-keeps :
    (junk : Pair) (g g' : TaskGraph) (t idx : ℕ)
    → IsValid g
    → take_over junk g t idx ≡ ok g'
    → IsValid g' × (length g'.lock_list ≡ length g.lock_list)
take_over-keeps junk g g' t idx valid h =
    let (entry, g₁, lowered, at, b, c, last) = take_over-eq-ok junk g g' t idx h in
    let less = record entry { degress = decrement entry.degress } in
    let u = thread_pair junk t in
    let v = thread_pair junk entry.th_id in
    let owned = record lowered { th_id = t } in
    let valid₁ =
      unlink_edge-IsValid (set_lock g idx less) g₁ u v (set_lock-IsValid g idx less valid) b in
    (
      subst IsValid (sym last) (set_lock-IsValid g₁ idx owned valid₁),
      ap (λ r. length r.lock_list) last
          ∙ length-set g₁.lock_list idx owned
          ∙ ap length (lock_list-unlink_edge (set_lock g idx less) g₁ u v b)
          ∙ length-set g.lock_list idx less,
    )

-- A write to one entry.
set_lock-keeps :
    (g g' : TaskGraph) (idx : ℕ) (entry : Pair)
    → IsValid g
    → g' ≡ set_lock g idx entry
    → IsValid g' × (length g'.lock_list ≡ length g.lock_list)
set_lock-keeps g g' idx entry valid e = (
  subst IsValid (sym e) (set_lock-IsValid g idx entry valid),
  ap (λ r. length r.lock_list) e ∙ length-set g.lock_list idx entry,
)

unlock_after-keeps :
    (g g' : TaskGraph) (lock : ℕ)
    → IsValid g
    → unlock_after g lock ≡ ok g'
    → IsValid g' × (length g'.lock_list ≡ length g.lock_list)
unfolding unlock_after
unlock_after-keeps g g' lock valid h =
    let (idx, a, h₁) = >>=-eq-ok (access (search_lock g lock)) _ h in
    let (entry, b, last) = >>=-eq-ok (access (get_elem? g.lock_list idx)) _ h₁ in
    elim (Bool-cases (is_zero entry.degress)) [
      | inl free ↦
          set_lock-keeps g g' idx (record entry { th_id = 0; lock_id = 0 }) valid (ground arith)
      | inr waited ↦ let same : g ≡ g' = ground arith in (subst IsValid same valid, ground arith)
    ]

fill_empty-keeps :
    (g g' : TaskGraph) (t lock : ℕ)
    → IsValid g
    → fill_empty g t lock ≡ ok g'
    → IsValid g' × (length g'.lock_list ≡ length g.lock_list)
unfolding fill_empty
fill_empty-keeps g g' t lock valid h =
    let (idx, a, h₁) = >>=-eq-ok (access (search_empty_lock g)) _ h in
    let (entry, b, last) = >>=-eq-ok (access (get_elem? g.lock_list idx)) _ h₁ in
    set_lock-keeps g g' idx (record entry { th_id = t; lock_id = lock }) valid (ground arith)

-- Every step of the hook keeps the graph valid, and none changes how many locks the table can hold.
pub perform-keeps :
    (junk : Pair) (g g' : TaskGraph) (step : Hook)
    → IsValid g
    → perform junk g step ≡ ok g'
    → IsValid g' × (length g'.lock_list ≡ length g.lock_list)
unfolding perform lock_before lock_after
perform-keeps junk g g' (before t lock) valid h = elim (Option-cases (search_lock g lock)) [
  | inl missing ↦ let same : g ≡ g' = ground arith in (subst IsValid same valid, ground arith)
  | inr (idx, found) ↦ register_wait-keeps junk g g' t idx valid (ground arith)
]
perform-keeps junk g g' (after t lock) valid h = elim (Option-cases (search_lock g lock)) [
  | inl missing ↦ fill_empty-keeps g g' t lock valid (ground arith)
  | inr (idx, found) ↦ take_over-keeps junk g g' t idx valid (ground arith)
]
perform-keeps junk g g' (unlocked lock) valid h = unlock_after-keeps g g' lock valid h

search_empty-none :
    (ps : List Pair) (i : ℕ)
    → All (λ p. is_zero p.degress ≡ false) ps
    → search_empty_from ps i ≡ none
search_empty-none [] i h = refl
search_empty-none (p ∷ ps) i h = ground (arith, search_empty-none ps (suc i))

-- A thread that has got a lock which the table does not know, while every entry counts a waiter,
-- writes outside of the table. An empty table has no other entry, so it takes no lock at all.
pub lock_after-fault :
    (junk : Pair) (g : TaskGraph) (t lock : ℕ)
    → search_lock g lock ≡ none
    → All (λ p. is_zero p.degress ≡ false) g.lock_list
    → lock_after junk g t lock ≡ fault
unfolding lock_after fill_empty search_empty_lock
lock_after-fault junk g t lock missing full = ground (arith, search_empty-none g.lock_list 0 full)

-- With no entry in the table no wait is ever recorded, and the first lock that a thread gets, or
-- gives back, is written or read outside of the table.
pub empty_table :
    (junk : Pair) (g : TaskGraph) (t lock : ℕ)
    → g.lock_list ≡ []
    → (perform junk g (before t lock) ≡ ok g)
      × (perform junk g (after t lock) ≡ fault)
      × (perform junk g (unlocked lock) ≡ fault)
unfolding perform lock_before lock_after unlock_after fill_empty search_empty_lock search_lock
empty_table junk g t lock none_there = (ground arith, ground arith, ground arith)
