-- ===== src/Lib.antt =====
-- Learning_C: models of its programs and the theorems about them.
--
-- The repository is a collection of programs that do not call one another. Each is modelled on its
-- own, but for the demo of the deadlock detector, which is taken with it, over the shared helpers
-- of Common: tests and conditionals (Common/Tests), lists and bounded access (Common/Lists),
-- integers that count up and down by one (Common/Int), and the results `ok`, `fault` and
-- `out_of_fuel` (Common/Results). A `fault` is what C++ leaves undefined: an index out of bounds,
-- a read or a `delete` of memory that is not allocated.
--
-- deadlock/deadlock.cpp is a detector of deadlocks that hooks `pthread_mutex_lock`. Deadlock/Graph
-- models the section Digraph: the vertices and edges of the graph of waiting threads, with
-- `search_vertex`, `add_vertex`, `add_edge`, `verify_edge` and `remove_edge`. Deadlock/Locks
-- models the table of locks and `lock_before`, `lock_after` and `unlock_after`, which change table
-- and graph; each holds one mutex throughout, so it is one step, and Deadlock/Locks/Table takes
-- the steps together. Deadlock/Cycle models `DFS`, `search_for_cycle`, `check_dead_lock` and
-- `print_deadlock`, and Deadlock/Main the `main` of the file. The -1 of a search is `none`. `DFS`
-- runs on fuel: one more than the number of vertices, since each call but the last marks a vertex.
--
-- _ptr/shared_ptr.cpp is modelled in SharedPtr: the constructors, copy assignment, destructor,
-- `use_count` and `operator*` over a heap of objects and counts and the variables of a program. A
-- `T*` of the program, null or not, is given to a pointer as the constructor takes it.
-- _ptr/unique_ptr.cpp is modelled in UniquePtr in the same way, with the pointers that a program
-- holds by itself. In both the address that `new` returns is an argument, allocation succeeds, and
-- the move assignments, which do not compile, are read as they are meant. SharedPtr/Race models
-- threads that release their pointers to one object at once, one step for each access of the count
-- and each `delete`.
--
-- ThreadPool/ThreadPool_adv.cpp is modelled in ThreadPool as a step function over a schedule: the
-- turns of the workers, the notifications, spurious wake-ups, and the calls of `addTask`,
-- `setStop` and the destructor, in any order. ThreadPool/Moves states the step function as a
-- relation.
--
-- protobuf/probuf.cpp is modelled in Protobuf: a class is described by fields with a type and an
-- offset, an object is what stands at each offset, and `serializeObject` and `deserializeObject`
-- go through the fields. The order of the fields is that of a hash map, so a new field goes to a
-- place that is an argument, and the offsets of the members of `Person` are arguments too. The
-- byte order is that of a little-endian machine.
--
-- epoll/server.cpp is modelled in EpollServer as the calls that the server makes for the answers
-- that the system gives: the set-up with its failures, and the events of each round of
-- `epoll_wait`. What `close` and `epoll_ctl` do in the system is not modelled: theorems are about
-- the calls.
--
-- buffer/async_buffer.cpp is modelled in AsyncLog: `init`, `write` with its change of file, the
-- queue and the thread that writes it out, and the destructor. Its header log.h is not in the
-- repository: the queue is the interface `BlockDeque`, of operations and the laws that the code
-- relies on, and the texts that the library formats are arguments. The destructor drains the queue
-- on fuel, the length of the queue, since each round takes one line. AsyncLog/Threads models
-- threads in `write` at the same time: the test at its top and the choice of a file name, which it
-- does without the mutex, and its two parts with the mutex are steps.
--
-- vector/vector_.cpp is modelled in Vector over a memory of slots, each raw or with one object, so
-- that building, reading and destroying are faults where no slot or no object is there. Which
-- copies throw, and whether the new element does, are the arguments `throws` and `fails`. The file
-- does not compile as it stands and is read as it is meant.
--
-- singleton/singleton. cpp is modelled in Singleton: threads in `getInstance`, one step for each
-- test of the pointer, `lock`, allocation, `unlock` and read. Steps take effect in their order,
-- which C++ promises only for an atomic pointer.
--
-- boost/timer.cpp is modelled in Timer: a pool whose workers run timed jobs. The queue of boost is
-- the interface of PriorityQueue, with the laws that boost documents, which a list in order meets.
-- The workers are steps of a schedule in which the clock, the notifications, `enqueue`,
-- `adjustTiming` and the destructor take part; the test of the predicate and the release of the
-- mutex are two steps, since the destructor writes `stop` without the mutex. A reference into the
-- queue lives until the queue changes. Timer/Loops models the two loops of `main`: the one that is
-- compiled with `one_thread` runs on fuel, two rounds for each job and one more, since after its
-- sleep a job is due.
--
-- mutex/try_lock.cpp is modelled in TryLock: threads in `thread_function` take turns in any order
-- over one timed mutex and a clock in milliseconds. A turn may come late, and an attempt may fail
-- for no reason, as the standard allows.
--
-- epoll/client.cpp is modelled in EpollClient as the calls that it makes, for the words that are
-- typed and the bytes that come back. What a `std::string` is in memory is an argument.
--
-- boost/priority_que.cpp is modelled in PriorityDemo over the same interface: `main` with any
-- events, on fuel, one more than there are events.
--
-- deadlock/deadlock_test.cpp is modelled in DeadlockDemo: its two threads over two mutexes, with
-- the hook of deadlock/deadlock.cpp in each lock, so that the table of locks and the graph of
-- Deadlock are part of the state. `lock_before`, the lock itself, `lock_after` and each unlock are
-- steps.
--
-- socket/socket.c is modelled in SocketServer as the calls of the server for the answers of the
-- system: `main` accepts a client and makes a thread in each round, and a thread reads its
-- descriptor through the address of the variable of that round, which lives as long as the round
-- and is at the same address in each. The helpers for buffers are those of EpollServer.
--
-- process/fork.cpp, process/fork_wait.cpp and process/fork_exec.cpp are modelled in Processes:
-- after `fork`, parent and child are lists of actions that take turns in any order and print to
-- one output. The lines of the command that `exec` runs, if it can, are an argument.
--
-- strcpy/strcpy.cpp is modelled in StringCopy over one memory, in which source and destination may
-- overlap, on fuel, one more than the size of the memory.
--
-- protobuf/demo/client.cpp and protobuf/demo/server.cpp are modelled in LibeventDemo as the calls
-- that they make for the events that libevent reports. A buffer event is a number that is freed
-- once; the generated class `Message` is two arguments, `serialize` and `parse`.
--
-- Not modelled: generated code (protobuf/message.pb.cc), and the short programs that show a
-- feature of the language. Counts are not bounded by the width of `int`, and the heap does not run
-- out.
pub mod Common
pub mod Deadlock
pub mod SharedPtr
pub mod UniquePtr
pub mod ThreadPool
pub mod AsyncLog
pub mod DeadlockDemo
pub mod EpollClient
pub mod EpollServer
pub mod LibeventDemo
pub mod PriorityDemo
pub mod PriorityQueue
pub mod Processes
pub mod Protobuf
pub mod Singleton
pub mod SocketServer
pub mod StringCopy
pub mod Timer
pub mod TryLock
pub mod Vector
