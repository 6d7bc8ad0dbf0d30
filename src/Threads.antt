-- ===== src/Threads.antt =====
-- src/threads.c, src/spinlock.c, src/mutex.c and src/condition.c with their headers: threads, the run
-- queue, and the mutexes and conditions over it.
--
-- A `struct thread *` is a number. The queues are the threads on them, in order; the nodes of
-- `struct wait` stand for their threads. One processor runs one thread: the kernel's state says
-- which, with the interrupt flag and the counter that disables preemption. `none` is a failed BUG_ON.
pub mod Spinlock
pub mod Scheduler
pub mod Mutex
pub mod Condition
mod Tests
