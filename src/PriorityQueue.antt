-- ===== src/PriorityQueue.antt =====
-- boost/timer.cpp and boost/priority_que.cpp: `boost::heap::priority_queue`, which both use. It is
-- boost's: an interface of its operations, what they are documented to do, and a list in order that
-- does it.
use learning_c.Common.{
  ◌≡◌, refl, ap, sym, subst, Bool, true, false, Option, none, some, List, [], ◌∷◌, All, inl, inr,
  arith, if◌then◌else◌, Bool-cases, length, suc, ◌∙◌,
}
use mathlib.Core.List.{Permᴰ}
use mathlib.Core.List.Permᴰ

-- `contents` is what a queue holds, in some order.
pub record PriorityQueue (E Q : Type 0) : Type 0 where
  pub new : Q
  pub push : E → Q → Q
  pub pop : Q → Q
  pub top : Q → Option E
  pub contents : Q → List E

-- `less` is the elements' `operator<`: no element is greater than the top.
pub record IsPriorityQueue {E Q : Type 0} (less : E → E → Bool) (H : PriorityQueue E Q)
    : Type 0 where
  pub contents-new : H.contents H.new ≡ []
  pub contents-push : (e : E) (q : Q) → Permᴰ (e ∷ H.contents q) (H.contents (H.push e q))
  pub contents-pop :
      (e : E) (q : Q) → H.top q ≡ some e → Permᴰ (e ∷ H.contents (H.pop q)) (H.contents q)
  pub top-none : (q : Q) → H.top q ≡ none → H.contents q ≡ []
  pub top-some : (e : E) (q : Q) → H.top q ≡ some e → All (λ x. less e x ≡ false) (H.contents q)

-- what the order of the elements must be
pub record IsOrder {E : Type 0} (less : E → E → Bool) : Type 0 where
  pub irreflexive : (a : E) → less a a ≡ false
  pub asymmetric : (a b : E) → less b a ≡ true → less a b ≡ false
  pub transitive : (a b c : E) → less a b ≡ false → less b c ≡ false → less a c ≡ false

module _ {E : Type 0} (less : E → E → Bool) where
  abbrev pub insert : E → List E → List E
  insert e [] = e ∷ []
  insert e (x ∷ xs) = let rest = insert e xs in if less e x then x ∷ rest else e ∷ x ∷ xs

  abbrev pub head : List E → Option E
  head [] = none
  head (x ∷ xs) = some x

  abbrev pub rest : List E → List E
  rest [] = []
  rest (x ∷ xs) = xs

  -- Nothing that follows an element is greater.
  abbrev pub Ordered : List E → Type 0
  Ordered [] = Unit
  Ordered (x ∷ xs) = All (λ y. less x y ≡ false) xs × Ordered xs

  insert-perm : (e : E) (xs : List E) → Permᴰ (e ∷ xs) (insert e xs)
  insert-perm e [] = Permᴰ.refl _
  insert-perm e (x ∷ xs) = elim (Bool-cases (less e x)) [
    | inl y ↦
        let same : x ∷ insert e xs ≡ insert e (x ∷ xs) = ground (arith, y) in
        subst (Permᴰ (e ∷ x ∷ xs)) same
          (Permᴰ.trans (Permᴰ.swap refl refl) (Permᴰ.cons refl (insert-perm e xs)))
    | inr n ↦
        let same : e ∷ x ∷ xs ≡ insert e (x ∷ xs) = ground (arith, n) in
        subst (Permᴰ (e ∷ x ∷ xs)) same (Permᴰ.refl _)
  ]

  All-insert : (P : E → Type 0) (e : E) (xs : List E) → P e → All P xs → All P (insert e xs)
  All-insert P e [] h k = (h, tt)
  All-insert P e (x ∷ xs) h k = elim (Bool-cases (less e x)) [
    | inl y ↦
        let same : x ∷ insert e xs ≡ insert e (x ∷ xs) = ground (arith, y) in
        subst (All P) same (k.0, All-insert P e xs h k.1)
    | inr n ↦
        let same : e ∷ x ∷ xs ≡ insert e (x ∷ xs) = ground (arith, n) in subst (All P) same (h, k)
  ]

  pub rest-Ordered : (xs : List E) → Ordered xs → Ordered (rest xs)
  rest-Ordered [] h = tt
  rest-Ordered (x ∷ xs) h = h.1

  head-perm : (e : E) (xs : List E) → head xs ≡ some e → Permᴰ (e ∷ rest xs) xs
  head-perm e [] h = absurd (ground arith)
  head-perm e (x ∷ xs) h = let same : x ≡ e = ground arith in Permᴰ.cons (sym same) (Permᴰ.refl xs)

  head-none : (xs : List E) → head xs ≡ none → xs ≡ []
  head-none [] h = refl
  head-none (x ∷ xs) h = absurd (ground arith)

module _ {E : Type 0} (less : E → E → Bool) (O : IsOrder less) where
  -- what is not greater than `y`, when `y` is not greater than `x`, is not greater than `x`
  All-later :
      (x y : E) (xs : List E)
      → less x y ≡ false
      → All (λ z. less y z ≡ false) xs
      → All (λ z. less x z ≡ false) xs
  All-later x y [] h k = tt
  All-later x y (z ∷ zs) h k = (O.transitive x y z h k.0, All-later x y zs h k.1)

  pub insert-Ordered : (e : E) (xs : List E) → Ordered less xs → Ordered less (insert less e xs)
  insert-Ordered e [] h = (tt, tt)
  insert-Ordered e (x ∷ xs) h = elim (Bool-cases (less e x)) [
    | inl y ↦
        let same : x ∷ insert less e xs ≡ insert less e (x ∷ xs) = ground (arith, y) in
        let after : less x e ≡ false = O.asymmetric x e y in
        subst (Ordered less) same
          (All-insert less (λ z. less x z ≡ false) e xs after h.0, insert-Ordered e xs h.1)
    | inr n ↦
        let same : e ∷ x ∷ xs ≡ insert less e (x ∷ xs) = ground (arith, n) in
        subst (Ordered less) same ((n, All-later e x xs n h.0), h)
  ]

  head-some :
      (e : E) (xs : List E)
      → head less xs ≡ some e
      → Ordered less xs
      → All (λ x. less e x ≡ false) xs
  head-some e [] h k = tt
  head-some e (x ∷ xs) h k =
      let same : x ≡ e = ground arith in
      subst (λ y. All (λ z. less y z ≡ false) (x ∷ xs)) same (O.irreflexive x, k.0)

  -- the queue as a list in order
  abbrev pub list_queue : PriorityQueue E ((xs : List E) × Ordered less xs)
  list_queue = record {
    new = ([], tt);
    push = λ e q. (insert less e q.0, insert-Ordered e q.0 q.1);
    pop = λ q. (rest less q.0, rest-Ordered less q.0 q.1);
    top = λ q. head less q.0;
    contents = λ q. q.0;
  }

  pub list_queue-IsPriorityQueue : IsPriorityQueue less list_queue
  list_queue-IsPriorityQueue = record {
    contents-new = refl;
    contents-push = λ e q. insert-perm less e q.0;
    contents-pop = λ e q h. head-perm less e q.0 h;
    top-none = λ q h. head-none less q.0 h;
    top-some = λ e q h. head-some e q.0 h q.1;
  }

pub All-Permᴰ {ℓ κ} :
    {A : Type ℓ} (P : A → Type κ) {xs ys : List A} → Permᴰ xs ys → All P xs → All P ys
All-Permᴰ P Permᴰ.nil h = tt
All-Permᴰ P (Permᴰ.cons e d) h = (subst P e h.0, All-Permᴰ P d h.1)
All-Permᴰ P (Permᴰ.swap e f) h = (subst P f h.1.0, (subst P e h.0, h.1.1))
All-Permᴰ P (Permᴰ.trans d e) h = All-Permᴰ P e (All-Permᴰ P d h)

pub length-Permᴰ {ℓ} : {A : Type ℓ} {xs ys : List A} → Permᴰ xs ys → length xs ≡ length ys
length-Permᴰ Permᴰ.nil = refl
length-Permᴰ (Permᴰ.cons e d) = ap suc (length-Permᴰ d)
length-Permᴰ (Permᴰ.swap e f) = refl
length-Permᴰ (Permᴰ.trans d e) = length-Permᴰ d ∙ length-Permᴰ e
