-- ===== src/Threads/Tests.antt =====
-- Runs of the threads, and the theorems there.
use files_co.Base.{ℕ, ◌≡◌, refl, true, ◌||◌, some, [], ◌∷◌, ◌==◌, if◌then◌else◌}
use files_co.Threads.Spinlock.{ThreadState, idle, active, blocked, Kernel}
use files_co.Threads.Scheduler.{schedule}

-- Thread 0 is the idle thread, 1 runs, 2 is on the run queue, and the others are blocked.
abbrev states : ℕ → ThreadState
states t = if t == 0 then idle else if t == 1 || t == 2 then active else blocked

abbrev three : Kernel
three = record {
  threads = λ t. record { state = states t; time = 0 };
  current = 1;
  idle_thread = some 0;
  runqueue = 2 ∷ [];
  preempt_cnt = 0;
  ints = true;
  jiffies = 20;
  saved = λ t. true;
}

-- Thread 1 used its slice: thread 2 runs, and 1 is on the run queue.
switched : (schedule three).current ≡ 2
unfolding schedule
switched = refl

waited : (schedule three).runqueue ≡ 1 ∷ []
unfolding schedule
waited = refl
