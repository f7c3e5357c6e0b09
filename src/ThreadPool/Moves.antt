-- ===== src/ThreadPool/Moves.antt =====
-- ThreadPool/ThreadPool_adv.cpp: the step function as a relation, with one constructor for each
-- thing that a pool can do.
use learning_c.Common.{
  ℕ, zero, suc, ◌≡◌, refl, subst, Bool, true, false, Option, none, some, List, [], ◌∷◌, ◌++◌, map,
  get_elem?, arith, ◌==◌, ==_iff, if◌then◌else◌, Option-cases, Bool-cases, inl, inr, ◌⊎◌,
}
use learning_c.ThreadPool.{
  Worker, Pool, Event, turn, spurious_wakeup, notify_one, notify_none, notify_all, add_task,
  set_stop, checking, asleep, exited, running, check_queue, work, wake, woken, step, with_worker,
  total, asleep_one, exited_one, run,
}

pub ℕ-cases : (n : ℕ) → (n ≡ 0) ⊎ ((m : ℕ) × (n ≡ suc m))
ℕ-cases zero = inl refl
ℕ-cases (suc m) = inr (m, refl)

module _ {T : Type 0} where
  pub data Move (p : Pool T) : Event T → Pool T → Type 0 where
    sleep :
        (i : ℕ)
        → get_elem? p.threads i ≡ some checking
        → p.task_queue ≡ []
        → p.stop_flag ≡ false
        → Move p (turn i) (with_worker p i asleep)
    leave :
        (i : ℕ)
        → get_elem? p.threads i ≡ some checking
        → p.task_queue ≡ []
        → p.stop_flag ≡ true
        → Move p (turn i) (with_worker p i exited)
    start :
        (i : ℕ) (task : T) (rest : List T)
        → get_elem? p.threads i ≡ some checking
        → p.task_queue ≡ task ∷ rest
        → Move p (turn i) (check_queue p i (task ∷ rest) p.stop_flag)
    finish :
        (i : ℕ) (task : T)
        → get_elem? p.threads i ≡ some (running task)
        → Move p (turn i) (record (with_worker p i checking) { finished = p.finished ++ task ∷ [] })
    wake_up :
        (i : ℕ)
        → get_elem? p.threads i ≡ some asleep
        → Move p (spurious_wakeup i) (with_worker p i checking)
    wake_one :
        (i n : ℕ)
        → p.notify_one_owed ≡ suc n
        → get_elem? p.threads i ≡ some asleep
        → Move p (notify_one i) (record (with_worker p i checking) { notify_one_owed = n })
    wake_none :
        (n : ℕ)
        → p.notify_one_owed ≡ suc n
        → total asleep_one p.threads ≡ 0
        → Move p notify_none (record p { notify_one_owed = n })
    wake_all :
        (n : ℕ)
        → p.notify_all_owed ≡ suc n
        → Move p notify_all (record p { notify_all_owed = n; threads = map woken p.threads })
    submit :
        (task : T) (l : ℕ)
        → l ≡ (if total exited_one p.threads == 0 then p.late else suc p.late)
        → Move p (add_task task) (record p {
          task_queue = p.task_queue ++ task ∷ [];
          notify_one_owed = suc p.notify_one_owed;
          submitted = p.submitted ++ task ∷ [];
          late = l;
        })
    stop :
        (flag : Bool)
        → Move p
            (set_stop flag)
            (record p { stop_flag = flag; notify_all_owed = suc p.notify_all_owed })

  check_queue-Move :
      (p : Pool T) (i : ℕ) (tasks : List T) (b : Bool)
      → get_elem? p.threads i ≡ some checking
      → p.task_queue ≡ tasks
      → p.stop_flag ≡ b
      → Move p (turn i) (check_queue p i tasks b)
  check_queue-Move p i [] false h q s = sleep i h q s
  check_queue-Move p i [] true h q s = leave i h q s
  check_queue-Move p i (task ∷ rest) b h q s = start i task rest h q

  work-Move :
      (p q : Pool T) (i : ℕ) (o : Option (Worker T))
      → get_elem? p.threads i ≡ o
      → work p i o ≡ some q
      → Move p (turn i) q
  work-Move p q i none h e = absurd (ground arith)
  work-Move p q i (some checking) h e =
      let same : check_queue p i p.task_queue p.stop_flag ≡ q = ground arith in
      subst (Move p (turn i)) same (check_queue-Move p i p.task_queue p.stop_flag h refl refl)
  work-Move p q i (some asleep) h e = absurd (ground arith)
  work-Move p q i (some exited) h e = absurd (ground arith)
  work-Move p q i (some (running task)) h e =
      let same : record (with_worker p i checking) { finished = p.finished ++ task ∷ [] } ≡ q =
        ground arith in
      subst (Move p (turn i)) same (finish i task h)

  wake-eq :
      (p q : Pool T) (i : ℕ) (o : Option (Worker T))
      → wake p i o ≡ some q
      → (o ≡ some asleep) × (with_worker p i checking ≡ q)
  wake-eq p q i none e = absurd (ground arith)
  wake-eq p q i (some checking) e = absurd (ground arith)
  wake-eq p q i (some asleep) e = (refl, ground arith)
  wake-eq p q i (some exited) e = absurd (ground arith)
  wake-eq p q i (some (running task)) e = absurd (ground arith)

  notify_one-Move :
      (p q : Pool T) (i : ℕ) → step p (notify_one i) ≡ some q → Move p (notify_one i) q
  unfolding step
  notify_one-Move p q i h = elim (ℕ-cases p.notify_one_owed) [
    | inl z ↦ absurd (ground (arith, z))
    | inr (n, e) ↦
        let w : wake (record p { notify_one_owed = n }) i (get_elem? p.threads i) ≡ some q =
          ground (arith, e) in
        let (s, same) = wake-eq (record p { notify_one_owed = n }) q i (get_elem? p.threads i) w in
        subst (Move p (notify_one i)) same (wake_one i n e s)
  ]

  notify_none-Move : (p q : Pool T) → step p notify_none ≡ some q → Move p notify_none q
  unfolding step
  notify_none-Move p q h = elim (ℕ-cases p.notify_one_owed) [
    | inl z ↦ absurd (ground (arith, z))
    | inr (n, e) ↦ elim (Bool-cases (total asleep_one p.threads == 0)) [
      | inl y ↦
          let same : record p { notify_one_owed = n } ≡ q = ground (arith, e, y) in
          subst (Move p notify_none) same
            (wake_none n e ((==_iff (total asleep_one p.threads) 0).0 y))
      | inr f ↦ absurd (ground (arith, e, f))
    ]
  ]

  notify_all-Move : (p q : Pool T) → step p notify_all ≡ some q → Move p notify_all q
  unfolding step
  notify_all-Move p q h = elim (ℕ-cases p.notify_all_owed) [
    | inl z ↦ absurd (ground (arith, z))
    | inr (n, e) ↦
        let same : record p { notify_all_owed = n; threads = map woken p.threads } ≡ q =
          ground (arith, e) in
        subst (Move p notify_all) same (wake_all n e)
  ]

  pub step-Move : (p q : Pool T) (e : Event T) → step p e ≡ some q → Move p e q
  unfolding step
  step-Move p q (turn i) h = work-Move p q i (get_elem? p.threads i) refl h
  step-Move p q (spurious_wakeup i) h =
      let (s, same) = wake-eq p q i (get_elem? p.threads i) h in
      subst (Move p (spurious_wakeup i)) same (wake_up i s)
  step-Move p q (notify_one i) h = notify_one-Move p q i h
  step-Move p q notify_none h = notify_none-Move p q h
  step-Move p q notify_all h = notify_all-Move p q h
  step-Move p q (add_task task) h =
      let e : record p {
        task_queue = p.task_queue ++ task ∷ [];
        notify_one_owed = suc p.notify_one_owed;
        submitted = p.submitted ++ task ∷ [];
        late = if total exited_one p.threads == 0 then p.late else suc p.late;
      }
          ≡ q =
        ground arith in
      subst (Move p (add_task task)) e (submit task _ refl)
  step-Move p q (set_stop b) h =
      let e : record p { stop_flag = b; notify_all_owed = suc p.notify_all_owed } ≡ q =
        ground arith in
      subst (Move p (set_stop b)) e (stop b)

  -- what every step keeps, every schedule keeps
  pub run-keeps :
      (P : Pool T → Type 0)
      → ((p q : Pool T) (e : Event T) → step p e ≡ some q → P p → P q)
      → (es : List (Event T)) (p q : Pool T) → run p es ≡ some q
      → P p
      → P q
  unfolding run
  run-keeps P keep [] p q h k = let e : p ≡ q = ground arith in subst P e k
  run-keeps P keep (e ∷ es) p q h k = elim (Option-cases (step p e)) [
    | inl n ↦ absurd (ground (arith, n))
    | inr (r, s) ↦
        let rest : run r es ≡ some q = ground (arith, s) in
        run-keeps P keep es r q rest (keep p r e s k)
  ]
