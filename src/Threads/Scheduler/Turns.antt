-- ===== src/Threads/Scheduler/Turns.antt =====
-- `schedule` and `force_schedule` of src/threads.c: whose turn it is next.
use files_co.Base.{
  ℕ, ◌+◌, ◌-◌, ◌%◌, ◌^◌, ◌<◌, ◌≡◌, Bool, false, some, if◌then◌else◌, List, [], ◌∷◌, ◌++◌,
}
use files_co.Threads.Spinlock.{active, Kernel}
use files_co.Threads.Scheduler.{is_active}

-- The thread that gives up the processor, if it goes on waiting for it
unfoldable pub waits : Kernel → List ℕ
waits k = if is_active (k.threads k.current).state then k.current ∷ [] else []

-- The thread that runs after a call of the scheduler, and the run queue then: a thread within its slice
-- of 10 goes on, unless `force` is set; the first of the run queue is next, with the thread before it
-- at the end of the queue; and with an empty run queue an active thread goes on, and others make way
-- for the idle thread.
pub data Turn (force : Bool) (k : Kernel) : ℕ → List ℕ → Type 0 where
  in_slice :
      force ≡ false
      → (k.threads k.current).state ≡ active
      → (k.jiffies + 2 ^ 64 - (k.threads k.current).time) % 2 ^ 64 < 10
      → Turn force k k.current k.runqueue
  alone : k.runqueue ≡ [] → (k.threads k.current).state ≡ active → Turn force k k.current []
  idles : {i : ℕ} → k.runqueue ≡ [] → k.idle_thread ≡ some i → waits k ≡ [] → Turn force k i []
  turns :
      {next : ℕ} {rest : List ℕ} → k.runqueue ≡ next ∷ rest → Turn force k next (rest ++ waits k)
