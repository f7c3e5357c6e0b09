-- ===== src/Vector/Memory.antt =====
-- vector/vector_.cpp: the memory of a vector, with objects at the front and raw slots behind them.
use mathlib.Core.List.{append_assoc}
use learning_c.Common.{
  ℕ, zero, suc, ◌+◌, ◌≡◌, refl, ap, Bool, true, false, Option, none, some, List, [], ◌∷◌, ◌++◌,
  get_elem?, set, length, length-append, ok, arith, inl, inr, Bool-cases, ◌⊎◌,
}
use learning_c.Vector.{raw, construct, read, destroy, destroy_from, move_from}

module _ {T : Type 0} where
  abbrev pub filled : List T → List (Option T)
  filled [] = []
  filled (x ∷ xs) = some x ∷ filled xs

  pub filled-append : (xs ys : List T) → filled (xs ++ ys) ≡ filled xs ++ filled ys
  filled-append [] ys = refl
  filled-append (x ∷ xs) ys = ap (λ l. some x ∷ l) (filled-append xs ys)

  -- the slot after some slots, and what is put there
  get-middle :
      (ms ns : List (Option T)) (s : Option T) → get_elem? (ms ++ s ∷ ns) (length ms) ≡ some s
  get-middle [] ns s = refl
  get-middle (m ∷ ms) ns s = get-middle ms ns s

  set-middle :
      (ms ns : List (Option T)) (s t : Option T) → set (ms ++ s ∷ ns) (length ms) t ≡ ms ++ t ∷ ns
  set-middle [] ns s t = refl
  set-middle (m ∷ ms) ns s t = ap (λ l. m ∷ l) (set-middle ms ns s t)

  pub length-filled : (xs : List T) → length (filled xs) ≡ length xs
  length-filled [] = refl
  length-filled (x ∷ xs) = omega (arith, length-filled xs)

  pub raw-eq-append : (c m n : ℕ) → c ≡ m + n → raw {T = T} c ≡ raw m ++ raw n
  raw-eq-append c zero n h = let same : c ≡ n = omega (arith, h) in ap raw same
  raw-eq-append zero (suc m) n h = absurd (omega (arith, h))
  raw-eq-append (suc c) (suc m) n h = ap (λ l. none ∷ l) (raw-eq-append c m n (omega (arith, h)))

  pub construct-middle :
      (ms ns : List (Option T)) (i : ℕ) (x : T)
      → i ≡ length ms
      → construct (ms ++ none ∷ ns) i x ≡ ok (ms ++ some x ∷ ns)
  construct-middle ms ns i x h =
      ground (arith, h, get-middle ms ns none, set-middle ms ns none (some x))

  pub read-middle :
      (ms ns : List (Option T)) (i : ℕ) (x : T) → i ≡ length ms → read (ms ++ some x ∷ ns) i ≡ ok x
  read-middle ms ns i x h = ground (arith, h, get-middle ms ns (some x))

  pub destroy-middle :
      (ms ns : List (Option T)) (i : ℕ) (x : T)
      → i ≡ length ms
      → destroy (ms ++ some x ∷ ns) i ≡ ok (ms ++ none ∷ ns)
  destroy-middle ms ns i x h =
      ground (arith, h, get-middle ms ns (some x), set-middle ms ns (some x) none)

  -- The objects behind some slots are destroyed one after the other.
  pub destroy_from_total :
      (xs : List T) (ms ns : List (Option T)) (i : ℕ)
      → i ≡ length ms
      → (r : List (Option T)) × (destroy_from (ms ++ (filled xs ++ ns)) i (length xs) ≡ ok r)
        × (r ≡ ms ++ (raw (length xs) ++ ns))
  unfolding destroy_from
  destroy_from_total [] ms ns i h = (_, refl, refl)
  destroy_from_total (x ∷ xs) ms ns i h =
      let (r, run, is) =
        destroy_from_total xs (ms ++ none ∷ []) ns (suc i)
          (omega (arith, h, length-append ms (none ∷ []))) in
      let regroup = append_assoc ms (none ∷ []) (filled xs ++ ns) in
      let regroup₂ = append_assoc ms (none ∷ []) (raw (length xs) ++ ns) in
      let first = destroy-middle ms (filled xs ++ ns) i x h in
      (r, ground (arith, first, run, regroup), ground (arith, is, regroup₂))

  -- The loop of `reallocate`, with `done` moved: the rest is moved after it, or a copy throws and all
  -- that was built is destroyed, so that the new memory is raw.
  pub move_from_total :
      (throws : ℕ → Bool) (rest done : List T) (tail : List (Option T)) (k i : ℕ)
      → i ≡ length done
      → ((j : ℕ) × (throws j ≡ true)
          × (move_from throws
                (filled done ++ (filled rest ++ tail))
                (filled done ++ (raw (length rest) ++ raw k))
                i
                (length rest)
              ≡ ok (false, raw (length done + (length rest + k)))))
        ⊎ (move_from throws
              (filled done ++ (filled rest ++ tail))
              (filled done ++ (raw (length rest) ++ raw k))
              i
              (length rest)
            ≡ ok (true, filled done ++ (filled rest ++ raw k)))
  unfolding move_from
  move_from_total throws [] done tail k i h = inr refl
  move_from_total throws (x ∷ rest) done tail k i h = elim (Bool-cases (throws i)) [
    | inl thrown ↦
        let (r, run, is) = destroy_from_total done [] (raw (suc (length rest)) ++ raw k) 0 refl in
        let whole =
          raw-eq-append (length done + (suc (length rest) + k)) (length done)
            (suc (length rest) + k) refl in
        let behind = raw-eq-append (suc (length rest) + k) (suc (length rest)) k refl in
        inl (i, thrown, ground (arith, thrown, run, h, is, whole, behind))
    | inr quiet ↦
        let e : i ≡ length (filled done) = omega (arith, h, length-filled done) in
        let got = read-middle (filled done) (filled rest ++ tail) i x e in
        let built = construct-middle (filled done) (raw (length rest) ++ raw k) i x e in
        let ih =
          move_from_total throws rest (done ++ x ∷ []) tail k (suc i)
            (omega (arith, h, length-append done (x ∷ []))) in
        let both = filled-append done (x ∷ []) in
        let regroup₁ = append_assoc (filled done) (some x ∷ []) (filled rest ++ tail) in
        let regroup₂ = append_assoc (filled done) (some x ∷ []) (raw (length rest) ++ raw k) in
        let regroup₃ = append_assoc (filled done) (some x ∷ []) (filled rest ++ raw k) in
        elim ih [
          | inl (j, thrown, stopped) ↦
              let slots : length (done ++ x ∷ []) + (length rest + k)
                  ≡ length done + (suc (length rest) + k) =
                omega (arith, length-append done (x ∷ [])) in
              inl (
                j,
                thrown,
                ground (arith, quiet, got, built, stopped, both, regroup₁, regroup₂, slots),
              )
          | inr moved ↦
              inr (ground (arith, quiet, got, built, moved, both, regroup₁, regroup₂, regroup₃))
        ]
  ]
