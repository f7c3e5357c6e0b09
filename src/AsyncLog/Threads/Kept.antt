-- ===== src/AsyncLog/Threads/Kept.antt =====
-- buffer/async_buffer.cpp: the lines of threads that write at the same time.
use learning_c.Common.{ℕ, List}
use learning_c.AsyncLog.{BlockDeque}
use learning_c.AsyncLog.Delivery.{Complete}
use learning_c.AsyncLog.Threads.{Shared}

module _ {Q : Type 0} (D : BlockDeque Q) (max_lines : ℕ) where
  abbrev Kept : Shared Q → Type 0
  Kept s = Complete D max_lines s.log
