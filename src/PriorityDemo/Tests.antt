-- ===== src/PriorityDemo/Tests.antt =====
-- boost/priority_que.cpp: the events of `main`.
use learning_c.Common.{◌≡◌, refl, arith, List, [], ◌∷◌, ok, pos}
use mathlib.Core.List.{Permᴰ}
use learning_c.PriorityQueue.{PriorityQueue, Ordered, list_queue, list_queue-IsPriorityQueue}
use learning_c.PriorityDemo.{TimerEvent, less, process, process_events, main_events}
use learning_c.PriorityDemo.Order.{less-IsOrder, LatestFirst, process_events-LatestFirst}

abbrev queue : PriorityQueue TimerEvent ((xs : List TimerEvent) × Ordered less xs)
queue = list_queue less less-IsOrder

process_events-LatestFirst_example :
    (printed : List TimerEvent) × (process_events queue main_events 4 ≡ ok printed)
    × Permᴰ main_events printed
    × LatestFirst printed
process_events-LatestFirst_example =
    process_events-LatestFirst queue (list_queue-IsPriorityQueue less less-IsOrder) main_events 4
      (omega arith)

-- the latest event comes first
printed_by_main :
    process_events queue main_events 4
    ≡ ok (
        record { id = pos 3; time = pos 10 }
        ∷ record { id = pos 1; time = pos 5 }
        ∷ record { id = pos 2; time = pos 3 }
        ∷ [])
unfolding process
printed_by_main = refl
