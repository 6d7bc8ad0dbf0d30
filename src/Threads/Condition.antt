-- ===== src/Threads/Condition.antt =====
-- src/condition.c and inc/condition.h, without `condition_wait`.
use files_co.Base.{ℕ, List, [], ◌∷◌}
use files_co.Threads.Spinlock.{Kernel, spin_lock_irqsave, spin_unlock_irqrestore}
use files_co.Threads.Scheduler.{thread_activate}

-- `struct condition`
pub record Condition : Type 0 where
  pub waitqueue : List ℕ

-- `condition_setup`
unfoldable condition_setup : Condition
condition_setup = record { waitqueue = [] }

-- `condition_signal`
unfoldable condition_signal : Condition → Kernel → Condition × Kernel
unfolding spin_lock_irqsave spin_unlock_irqrestore thread_activate
condition_signal cond k =
    let (enable, k1) = spin_lock_irqsave k in
    elim cond.waitqueue [
      | [] ↦ (cond, spin_unlock_irqrestore enable k1)
      | node ∷ rest ↦ (
        record cond { waitqueue = rest },
        spin_unlock_irqrestore enable (thread_activate node k1),
      )
    ]

-- The loop of `condition_broadcast`
unfoldable activate_all : List ℕ → Kernel → Kernel
unfolding thread_activate
activate_all [] k = k
activate_all (node ∷ rest) k = activate_all rest (thread_activate node k)

-- `condition_broadcast`
unfoldable condition_broadcast : Condition → Kernel → Condition × Kernel
unfolding spin_lock_irqsave spin_unlock_irqrestore activate_all
condition_broadcast cond k =
    let (enable, k1) = spin_lock_irqsave k in
    (record cond { waitqueue = [] }, activate_all cond.waitqueue (spin_unlock_irqrestore enable k1))
