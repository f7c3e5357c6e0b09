-- ===== src/LibeventDemo/Client.antt =====
-- protobuf/demo/client.cpp: the buffer event of the client, freed once or twice.
use learning_c.Common.{
  ℕ, ◌≡◌, refl, inl, inr, ◌⊎◌, ◌↔◌, Bool, true, false, some, List, [], ◌∷◌, ok, fault, arith,
  Bool-cases,
}
use learning_c.LibeventDemo.{
  World, Call, ClientEvent, connected, error, other, free_bev, dispatch, client, log,
  connected_printed, written, hello, bev_free, base_free, base_new, bev_new, error_printed,
}

abbrev pub has_error : List ClientEvent → Bool
has_error [] = false
has_error (connected ∷ es) = has_error es
has_error (error ∷ es) = true
has_error (other ∷ es) = has_error es

module _ (serialize : List ℕ → List ℕ) (bev : ℕ) where
  -- what is there: the buffer event, or nothing
  abbrev alone : List Call → World
  alone calls = record { live = bev ∷ []; calls = calls }

  dispatch_lem :
      (es : List ClientEvent) (calls : List Call)
      → (after : World) × (dispatch serialize (alone calls) bev es ≡ ok after)
        × (after.live ≡ (elim (has_error es) [ true ↦ [] | false ↦ bev ∷ [] ]))
  unfolding dispatch free_bev
  dispatch_lem [] calls = (alone calls, refl, refl)
  dispatch_lem (connected ∷ es) calls =
      let sent =
        (log (log (alone calls) connected_printed) (written bev (serialize hello))).calls in
      let (after, ran, live) = dispatch_lem es sent in (after, ground (arith, ran), live)
  dispatch_lem (error ∷ es) calls = (
    record { live = []; calls = (log (log (alone calls) error_printed) (bev_free bev)).calls },
    ground arith,
    refl,
  )
  dispatch_lem (other ∷ es) calls =
      let (after, ran, live) = dispatch_lem es calls in (after, ground (arith, ran), live)

  free_one :
      (w : World)
      → w.live ≡ bev ∷ []
      → free_bev w bev ≡ ok (record (log w (bev_free bev)) { live = [] })
  unfolding free_bev
  free_one w e = ground (arith, e)

  free_none : (w : World) → w.live ≡ [] → free_bev w bev ≡ fault
  unfolding free_bev
  free_none w e = ground (arith, e)

  with_error :
      (es : List ClientEvent)
      → has_error es ≡ true
      → client serialize true (some bev) true es ≡ fault
  unfolding client
  with_error es e =
      let (after, ran, live) = dispatch_lem es (base_new ∷ bev_new bev ∷ []) in
      let gone : after.live ≡ [] = ground (arith, live, e) in
      ground (arith, ran, free_none after gone)

  without_error :
      (es : List ClientEvent)
      → has_error es ≡ false
      → (w : World) × (client serialize true (some bev) true es ≡ ok w) × (w.live ≡ [])
  unfolding client
  without_error es e =
      let (after, ran, live) = dispatch_lem es (base_new ∷ bev_new bev ∷ []) in
      let there : after.live ≡ bev ∷ [] = ground (arith, live, e) in
      let freed : World = record (log after (bev_free bev)) { live = [] } in
      (log freed base_free, ground (arith, ran, free_one after there), refl)

  -- A client that gets its base and its buffer event and begins to connect frees the buffer event
  -- twice exactly when libevent reports an error on it; otherwise it returns, the buffer event freed.
  pub client-fault :
      (es : List ClientEvent)
      → ((client serialize true (some bev) true es ≡ fault) ↔ (has_error es ≡ true))
        × ((has_error es ≡ true)
            ⊎ ((w : World) × (client serialize true (some bev) true es ≡ ok w) × (w.live ≡ [])))
  client-fault es = elim (Bool-cases (has_error es)) [
    | inl e ↦ ((λ h. e, λ h. with_error es e), inl e)
    | inr e ↦
        let (w, ran, live) = without_error es e in
        ((λ h. absurd (ground (arith, ran)), λ h. absurd (ground (arith, e))), inr (w, ran, live))
  ]
