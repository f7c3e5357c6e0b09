-- ===== src/SharedPtr/Lifetime.antt =====
-- _ptr/shared_ptr.cpp: programs from their start to the end of their variables.
use learning_c.Common.{
  ℕ, zero, suc, ◌<◌, ◌≡◌, refl, subst, inl, inr, ◌⊎◌, Option, none, some, List, [], ◌∷◌, get_elem?,
  get_elem?-lt, get_elem?-set, arith, pos, ok, All, Option-cases, ◌∙◌, true, false,
}
use learning_c.SharedPtr.{
  SharedPtr, World, Op, use_count, deref, perform, construct_from, retain, move_construct,
}
use learning_c.SharedPtr.Inv.{owners, share-le-owners}
use learning_c.SharedPtr.Program.{Allowed, IsSound, shared_ptr_total}

abbrev pub NoneInScope : List (Option SharedPtr) → Type 0
NoneInScope vs = All (λ v. v ≡ none) vs

owners-none : (c : ℕ) (vs : List (Option SharedPtr)) → NoneInScope vs → owners c vs ≡ 0
unfolding owners
owners-none c [] h = refl
owners-none c (v ∷ vs) h = ground (arith, owners-none c vs h.1)

none-get :
    (vs : List (Option SharedPtr)) (i : ℕ) (s : SharedPtr)
    → NoneInScope vs
    → get_elem? vs i ≡ some (some s)
    → ⊥
none-get [] i s h e = ground arith
none-get (v ∷ vs) zero s h e = ground arith
none-get (v ∷ vs) (suc i) s h e = none-get vs i s h.1 e

module _ {A : Type 0} where
  -- Before the first variable nothing is allocated.
  pub record IsStart (w : World A) : Type 0 where
    pub unused : NoneInScope w.vars
    pub no_object : (p : ℕ) → w.heap.objects p ≡ none
    pub no_count : (c : ℕ) → w.heap.counts c ≡ none
    pub no_raw : (p : ℕ) → w.raws p ≡ false

  -- The operations of a program, each allowed where it is made.
  pub data Runs (w : World A) : World A → Type 0 where
    begin : Runs w w
    then_do : {v u : World A} (op : Op A) → Runs w v → Allowed v op → perform v op ≡ ok u → Runs w u

  pub start-IsSound : (w : World A) → IsStart w → IsSound w
  start-IsSound w h = (
    (λ c. some c),
    record {
      counted = λ c. ground (arith, owners-none c w.vars h.unused, h.no_count c);
      pointers = λ i s e. absurd (none-get w.vars i s h.unused e);
      apart = λ c d p pc. absurd (omega (arith, owners-none c w.vars h.unused, pc));
      alive = λ c p pc. absurd (omega (arith, owners-none c w.vars h.unused, pc));
      held = λ p a e. absurd (ground (arith, h.no_object p));
      raw = λ p r. absurd (ground (arith, h.no_raw p, r));
    },
  )

  Runs-IsSound : {w v : World A} → IsSound w → Runs w v → IsSound v
  Runs-IsSound sound begin = sound
  Runs-IsSound sound (then_do {v = u} op r allowed e) =
      let (x, run, kept) = shared_ptr_total u op (Runs-IsSound sound r) allowed in
      subst IsSound (ground arith) kept

  -- When every variable of a program is out of scope, each object but those that the program still
  -- holds by itself, and each count, has been deleted.
  pub shared_ptr_no_leak :
      (w v : World A)
      → IsStart w
      → Runs w v
      → NoneInScope v.vars
      → ((p : ℕ) → (v.raws p ≡ true) ⊎ (v.heap.objects p ≡ none))
        × ((c : ℕ) → v.heap.counts c ≡ none)
  shared_ptr_no_leak w v start r gone =
      let (target, inv) = Runs-IsSound (start-IsSound w start) r in
      (
        λ p. elim (Option-cases (v.heap.objects p)) [
          | inl e ↦ inr e
          | inr (a, e) ↦ elim (inv.held p a e) [
            | inl r ↦ inl r
            | inr (c, pc, _) ↦ absurd (omega (arith, owners-none c v.vars gone, pc))
          ]
        ],
        λ c. ground (arith, inv.counted c, owners-none c v.vars gone),
      )

  -- While a variable of a program is in scope, either it has no count, its pointer is null and
  -- `use_count` is 0, or `use_count` is the number of variables that share its count, and its pointer
  -- is null or the object behind it is there to be read.
  pub use_count-owners :
      (w v : World A) (i : ℕ) (s : SharedPtr)
      → IsStart w
      → Runs w v
      → get_elem? v.vars i ≡ some (some s)
      → (s.ptr ≡ none) × (s.ref_count ≡ none) × (use_count s v.heap ≡ ok (pos 0))
        ⊎ ((c : ℕ) × (s.ref_count ≡ some c)
            × (use_count s v.heap ≡ ok (pos (owners c v.vars)))
            × ((s.ptr ≡ none) ⊎ ((a : A) × (deref s v.heap ≡ ok a))))
  use_count-owners w v i s start r here =
      let (target, inv) = Runs-IsSound (start-IsSound w start) r in
      elim (inv.pointers i s here) [
        | inl (no_ptr, no_count) ↦ inl (no_ptr, no_count, ground arith)
        | inr (c, at, counter) ↦
            let shared : 0 < owners c v.vars =
              ground (arith, share-le-owners c v.vars i (some s) here) in
            inr (
              c,
              counter,
              ground (arith, inv.counted c),
              elim (Option-cases (target c)) [
                | inl null ↦ inl (at ∙ null)
                | inr (p, is) ↦
                    let (a, live) = inv.alive c p shared is in inr (a, ground (arith, at, is, live))
              ],
            )
      ]

  -- The move constructor does not move: its argument keeps its pointer, which then has one owner
  -- more than before.
  pub move_construct-shares :
      (w w' : World A) (i j c : ℕ) (s : SharedPtr)
      → IsSound w
      → get_elem? w.vars i ≡ some none
      → get_elem? w.vars j ≡ some (some s)
      → s.ref_count ≡ some c
      → perform w (move_construct i j) ≡ ok w'
      → (get_elem? w'.vars j ≡ some (some s))
        × (get_elem? w'.vars i ≡ some (some s))
        × (use_count s w'.heap ≡ ok (pos (suc (owners c w.vars))))
  unfolding perform construct_from retain
  move_construct-shares w w' i j c s (target, inv) free here counter h =
      let shared : 0 < owners c w.vars = ground (arith, share-le-owners c w.vars j (some s) here) in
      let lt = get_elem?-lt w.vars i free in
      (
        ground (arith, get_elem?-set w.vars i j (some s) lt),
        ground (arith, get_elem?-set w.vars i i (some s) lt),
        ground (arith, inv.counted c),
      )
