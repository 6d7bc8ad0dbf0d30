-- ===== src/Threads/Mutex.antt =====
-- src/mutex.c and inc/mutex.h. The lock of a mutex has no state on one processor; its wait queue is
-- the threads on it.
use files_co.Base.{ℕ, Bool, true, false, not, if◌then◌else◌, List, [], ◌∷◌, ◌++◌, ◌==◌}
use files_co.Threads.Spinlock.{blocked, Kernel, spin_lock_irqsave, spin_unlock_irqrestore}
use files_co.Threads.Scheduler.{set_state, thread_activate}

-- `struct mutex`
pub record Mutex : Type 0 where
  pub waitqueue : List ℕ
  pub locked : ℕ

-- `mutex_setup`
unfoldable mutex_setup : Mutex
mutex_setup = record { waitqueue = []; locked = 0 }

-- `mutex_lock` up to its call of `schedule`, and whether it comes to that. The call is a step of its
-- own, since interrupts may be enabled before it.
unfoldable mutex_lock : Mutex → Kernel → Mutex × Kernel × Bool
unfolding spin_lock_irqsave spin_unlock_irqrestore
mutex_lock mtx k =
    let (enable, k1) = spin_lock_irqsave k in
    if not (mtx.locked == 0)
    then (let self = k1.current in
        let k2 = set_state self blocked k1 in
        (
          record mtx { waitqueue = mtx.waitqueue ++ self ∷ [] },
          spin_unlock_irqrestore enable k2,
          true,
        ))
    else (record mtx { locked = 1 }, spin_unlock_irqrestore enable k1, false)

-- `mutex_unlock`
unfoldable mutex_unlock : Mutex → Kernel → Mutex × Kernel
unfolding spin_lock_irqsave spin_unlock_irqrestore thread_activate
mutex_unlock mtx k =
    let (enable, k1) = spin_lock_irqsave k in
    elim mtx.waitqueue [
      | [] ↦ (record mtx { locked = 0 }, spin_unlock_irqrestore enable k1)
      | next ∷ rest ↦
          (record mtx { waitqueue = rest }, spin_unlock_irqrestore enable (thread_activate next k1))
    ]
