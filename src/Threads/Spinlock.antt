-- ===== src/Threads/Spinlock.antt =====
-- src/spinlock.c and the preemption counter of src/threads.c, over the state of the kernel.
use files_co.Base.{ℕ, ◌+◌, ◌-◌, ◌%◌, ◌^◌, Bool, true, false, Option, if◌then◌else◌, List}

-- `enum thread_state`
pub data ThreadState : Type 0 where
  idle active blocked finishing finished : ThreadState

-- A `struct thread` as far as the scheduler goes: its state, and when it was last switched to.
pub record Thread : Type 0 where
  pub state : ThreadState
  pub time : ℕ

-- The statics of threads.c, the threads, the interrupt flag, `jiffies` of time.c, and for each thread
-- its local `enable` in `schedule` or `force_schedule`, while another thread runs.
pub record Kernel : Type 0 where
  pub threads : ℕ → Thread
  pub current : ℕ
  pub idle_thread : Option ℕ
  pub runqueue : List ℕ
  pub preempt_cnt : ℕ
  pub ints : Bool
  pub jiffies : ℕ
  pub saved : ℕ → Bool

unfoldable pub disable_ints : Kernel → Kernel
disable_ints k = record k { ints = false }

unfoldable pub enable_ints : Kernel → Kernel
enable_ints k = record k { ints = true }

-- `atomic_fetch_add_explicit(&preempt_cnt, 1, …)`, of a 32-bit counter
unfoldable pub disable_preempt : Kernel → Kernel
disable_preempt k = record k { preempt_cnt = (k.preempt_cnt + 1) % 2 ^ 32 }

unfoldable pub enable_preempt : Kernel → Kernel
enable_preempt k = record k { preempt_cnt = (k.preempt_cnt + 2 ^ 32 - 1) % 2 ^ 32 }

unfoldable pub spin_lock : Kernel → Kernel
unfolding disable_preempt
spin_lock k = disable_preempt k

unfoldable pub spin_unlock : Kernel → Kernel
unfolding enable_preempt
spin_unlock k = enable_preempt k

-- `spin_lock_irqsave`: it returns whether interrupts were enabled.
unfoldable pub spin_lock_irqsave : Kernel → Bool × Kernel
unfolding disable_ints spin_lock
spin_lock_irqsave k = (k.ints, spin_lock (disable_ints k))

unfoldable pub spin_unlock_irqrestore : Bool → Kernel → Kernel
unfolding enable_ints spin_unlock
spin_unlock_irqrestore enable k = let k' = spin_unlock k in if enable then enable_ints k' else k'
