-- ===== src/Deadlock.antt =====
-- deadlock/deadlock.cpp: the wait-for graph of threads, the table of locks that feeds it, and the
-- search for a cycle.
pub mod Graph
pub mod Locks
pub mod Cycle
pub mod Main
mod Tests
mod LockTests
