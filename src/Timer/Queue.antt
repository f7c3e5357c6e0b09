-- ===== src/Timer/Queue.antt =====
-- boost/timer.cpp: the order of the jobs.
use learning_c.Common.{ltbℤ_trans, ltbℤ_asymm, ltbℤ_refl}
use learning_c.Timer.{less}
use learning_c.PriorityQueue.{IsOrder}

pub less-IsOrder : {C : Type 0} → IsOrder (less {C = C})
less-IsOrder = record {
  irreflexive = λ a. ltbℤ_refl a.time;
  asymmetric = λ a b h. ltbℤ_asymm a.time b.time h;
  transitive = λ a b c h k. ltbℤ_trans a.time b.time c.time h k;
}
