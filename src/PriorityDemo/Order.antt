-- ===== src/PriorityDemo/Order.antt =====
-- boost/priority_que.cpp: the order in which the events are printed.
use learning_c.Common.{
  ℕ, zero, suc, ◌<◌, ◌≡◌, refl, sym, subst, false, none, some, List, [], ◌∷◌, ◌++◌, length, arith,
  Option-cases, All, ltbℤ, inl, inr, ok, ltbℤ_trans, ltbℤ_asymm, ltbℤ_refl,
}
use mathlib.Core.List.{Permᴰ, append-nil}
use mathlib.Core.List.Permᴰ
use learning_c.PriorityQueue.{
  PriorityQueue, IsPriorityQueue, IsOrder, Ordered, All-Permᴰ, length-Permᴰ,
}
use learning_c.PriorityDemo.{TimerEvent, less, process, push_all, process_events}

pub less-IsOrder : IsOrder less
less-IsOrder = record {
  irreflexive = λ a. ltbℤ_refl a.time;
  asymmetric = λ a b h. ltbℤ_asymm b.time a.time h;
  transitive = λ a b c h k. ltbℤ_trans c.time b.time a.time k h;
}

-- the latest time first
abbrev pub LatestFirst : List TimerEvent → Type 0
LatestFirst [] = Unit
LatestFirst (e ∷ es) = All (λ later. ltbℤ e.time later.time ≡ false) es × LatestFirst es

Ordered-LatestFirst : (es : List TimerEvent) → Ordered less es → LatestFirst es
Ordered-LatestFirst [] h = tt
Ordered-LatestFirst (e ∷ es) h = (h.0, Ordered-LatestFirst es h.1)

module _ {Q : Type 0} (H : PriorityQueue TimerEvent Q) (L : IsPriorityQueue less H) where
  abbrev Printed : ℕ → Q → Type 0
  Printed fuel q =
      (printed : List TimerEvent) × (process H fuel q ≡ ok printed)
      × Permᴰ (H.contents q) printed
      × Ordered less printed

  process_one :
      (fuel : ℕ) (q : Q) (e : TimerEvent)
      → H.top q ≡ some e
      → Printed fuel (H.pop q)
      → Printed (suc fuel) q
  unfolding process
  process_one fuel q e top (printed, h, perm, order) =
      let split : Permᴰ (H.contents q) (e ∷ H.contents (H.pop q)) =
        Permᴰ.symm (L.contents-pop e q top) in
      (
        e ∷ printed,
        ground (arith, top, h),
        Permᴰ.trans split (Permᴰ.cons refl perm),
        (
          All-Permᴰ (λ x. less e x ≡ false) perm
              (All-Permᴰ (λ x. less e x ≡ false) split (L.top-some e q top)).1,
          order,
        ),
      )

  process_none : (fuel : ℕ) (q : Q) → H.top q ≡ none → Printed (suc fuel) q
  unfolding process
  process_none fuel q top =
      let empty : [] ≡ H.contents q = sym (L.top-none q top) in
      ([], ground (arith, top), subst (λ xs. Permᴰ xs []) empty Permᴰ.nil, tt)

  process_lem : (fuel : ℕ) (q : Q) → length (H.contents q) < fuel → Printed fuel q
  process_lem zero q h = absurd (omega (arith, h))
  process_lem (suc fuel) q h = elim (Option-cases (H.top q)) [
    | inl top ↦ process_none fuel q top
    | inr (e, top) ↦
        let shorter : suc (length (H.contents (H.pop q))) ≡ length (H.contents q) =
          length-Permᴰ (L.contents-pop e q top) in
        process_one fuel q e top (process_lem fuel (H.pop q) (omega (arith, h, shorter)))
  ]

  contents-push_all :
      (events : List TimerEvent) (q : Q)
      → Permᴰ (events ++ H.contents q) (H.contents (push_all H events q))
  contents-push_all [] q = Permᴰ.refl _
  contents-push_all (e ∷ events) q =
      Permᴰ.trans (Permᴰ.symm (Permᴰ.middle e events (H.contents q))) (
        Permᴰ.trans (Permᴰ.append_left events (L.contents-push e q))
          (contents-push_all events (H.push e q)))

  -- With more fuel than events, over any queue that keeps boost's promises, `main` ends and has
  -- printed each event that it pushed once, the one with the greatest time first: against the comment
  -- on `operator<`, none is printed after one with a smaller time.
  pub process_events-LatestFirst :
      (events : List TimerEvent) (fuel : ℕ)
      → length events < fuel
      → (printed : List TimerEvent) × (process_events H events fuel ≡ ok printed)
        × Permᴰ events printed
        × LatestFirst printed
  process_events-LatestFirst events fuel h =
      let pushed : Permᴰ events (H.contents (push_all H events H.new)) =
        subst (λ xs. Permᴰ xs (H.contents (push_all H events H.new))) (append-nil events)
          (subst (λ xs. Permᴰ (events ++ xs) (H.contents (push_all H events H.new))) L.contents-new
            (contents-push_all events H.new)) in
      let (printed, done, perm, order) =
        process_lem fuel (push_all H events H.new) (omega (arith, h, length-Permᴰ pushed)) in
      (printed, done, Permᴰ.trans pushed perm, Ordered-LatestFirst printed order)
