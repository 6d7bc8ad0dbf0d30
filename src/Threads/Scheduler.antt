-- ===== src/Threads/Scheduler.antt =====
-- src/threads.c: the run queue and the choice of the next thread.
pub mod Laws
pub mod Place
pub mod Switch
pub mod Turns
use files_co.Base.{
  ℕ, ◌+◌, ◌-◌, ◌%◌, ◌^◌, Bool, true, false, not, ◌&&◌, ◌||◌, Option, some, none, if◌then◌else◌,
  List, [], ◌∷◌, ◌++◌, ◌==◌, ltb, update,
}
use files_co.Threads.Spinlock.{
  ThreadState, idle, active, blocked, finishing, finished, Thread, Kernel, spin_lock, spin_unlock,
  spin_lock_irqsave, spin_unlock_irqrestore, disable_ints, enable_ints,
}

abbrev pub slice : ℕ
slice = 10

abbrev pub is_active : ThreadState → Bool
is_active active = true
is_active _ = false

abbrev pub is_finishing : ThreadState → Bool
is_finishing finishing = true
is_finishing _ = false

abbrev pub set_state : ℕ → ThreadState → Kernel → Kernel
set_state t s k = record k { threads = update k.threads t (record (k.threads t) { state = s }) }

-- `current_time()`
abbrev pub current_time : Kernel → ℕ
current_time k = k.jiffies

-- `thread_activate`
unfoldable pub thread_activate : ℕ → Kernel → Kernel
unfolding spin_lock_irqsave spin_unlock_irqrestore
thread_activate thread k =
    let (enable, k1) = spin_lock_irqsave k in
    let k2 = set_state thread active k1 in
    spin_unlock_irqrestore enable (record k2 { runqueue = k2.runqueue ++ thread ∷ [] })

-- `if (prev->state == THREAD_FINISHING) prev->state = THREAD_FINISHED;`
unfoldable pub retire : ℕ → Kernel → Kernel
retire prev k = if is_finishing (k.threads prev).state then set_state prev finished k else k

-- `if (prev->state == THREAD_ACTIVE) list_add_tail(&prev->ll, &runqueue);`
unfoldable pub requeue : ℕ → Kernel → Kernel
requeue prev k =
    if is_active (k.threads prev).state then record k { runqueue = k.runqueue ++ prev ∷ [] } else k

-- `current = next; next->time = current_time();`
unfoldable pub take_over : ℕ → Kernel → Kernel
take_over next k = record k {
  current = next;
  threads = update k.threads next (record (k.threads next) { time = current_time k });
}

-- `place_thread`, run by the thread that was switched to; `current` is still the one before.
unfoldable pub place_thread : ℕ → Kernel → Kernel
unfolding spin_lock spin_unlock retire requeue take_over
place_thread next k =
    take_over next (spin_unlock (requeue k.current (spin_lock (retire k.current k))))

-- `next = list_first(&runqueue); list_del(&next->ll)` if the queue is not empty, else the idle thread
unfoldable pub pick_next : Kernel → Option ℕ × Kernel
pick_next k = elim k.runqueue [
  | [] ↦ (k.idle_thread, k)
  | next ∷ rest ↦ (some next, record k { runqueue = rest })
]

abbrev pub is_thread : Option ℕ → ℕ → Bool
is_thread none t = false
is_thread (some i) t = i == t

-- The end of `__schedule`. The switch itself saves the registers of one thread and loads those of
-- another, whose next step in this code is `place_thread`.
unfoldable pub switch_to : Option ℕ → Kernel → Kernel
unfolding place_thread
switch_to none k = k
switch_to (some next) k =
    if next == k.current
    then k
    else if not (is_thread k.idle_thread next) || not (is_active (k.threads k.current).state)
    then place_thread next k
    else k

-- `__schedule` from the lock of the run queue on
unfoldable pub choose : Kernel → Kernel
unfolding spin_lock spin_unlock pick_next switch_to
choose k = let (next, k1) = pick_next (spin_lock k) in switch_to next (spin_unlock k1)

-- `__schedule`
unfoldable pub schedule_now : Bool → Kernel → Kernel
unfolding choose
schedule_now force k =
    let prev = k.threads k.current in
    if not force
      && is_active prev.state
      && ltb ((current_time k + 2 ^ 64 - prev.time) % 2 ^ 64) slice
    then k
    else choose k

-- `const int enable = ints_enabled(); disable_ints();`, on the stack of the running thread
unfoldable pub save_ints : Kernel → Kernel
unfolding disable_ints
save_ints k = disable_ints (record k { saved = update k.saved k.current k.ints })

-- `if (enable) enable_ints();`, by the thread that runs then, with its own `enable`
unfoldable pub restore_ints : Kernel → Kernel
unfolding enable_ints
restore_ints k = if k.saved k.current then enable_ints k else k

-- `schedule`
unfoldable pub schedule : Kernel → Kernel
unfolding schedule_now save_ints restore_ints
schedule k = if not (k.preempt_cnt == 0) then k else restore_ints (schedule_now false (save_ints k))

-- `force_schedule`
unfoldable pub force_schedule : Kernel → Option Kernel
unfolding schedule_now save_ints restore_ints
force_schedule k =
    if not (k.preempt_cnt == 0) then none else some (restore_ints (schedule_now true (save_ints k)))

-- The first round of the loop of `thread_exit`.
unfoldable pub thread_exit : Kernel → Option Kernel
unfolding force_schedule
thread_exit k = force_schedule (set_state k.current finishing k)

-- A round of the loop of `thread_join`; `none` inside is the end of the loop.
unfoldable pub thread_join_round : ℕ → Kernel → Option (Option Kernel)
unfolding force_schedule
thread_join_round thread k = elim (k.threads thread).state [
  | finished ↦ none
  | _ ↦ some (force_schedule k)
]

-- `idle`, up to its first `force_schedule`
unfoldable pub idle_start : Kernel → Option Kernel
unfolding force_schedule
idle_start k = elim k.idle_thread [
  | some _ ↦ none
  | none ↦ force_schedule (set_state k.current idle (record k { idle_thread = some k.current }))
]

-- `threads_setup`, with the thread that `thread_alloc` returns. Its `memset` is of the size of a
-- pointer: it clears neither the state nor the time.
unfoldable pub threads_setup : ℕ → Kernel → Kernel
threads_setup fresh k = set_state fresh active (record k { runqueue = []; current = fresh })
