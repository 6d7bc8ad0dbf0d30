-- ===== src/Threads/Scheduler/Place.antt =====
-- `place_thread` of src/threads.c keeps the run queue.
use files_co.Base.{
  ℕ, ◌+◌, ◌-◌, ◌%◌, ◌^◌, ◌≡◌, ◌⊎◌, inl, inr, refl, Bool, false, ◌==◌, has, arith, Bool-cases,
}
use files_co.Threads.Spinlock.{ThreadState, idle, active, Kernel, spin_lock, spin_unlock}
use files_co.Threads.Scheduler.{is_active, is_finishing, retire, requeue, take_over, place_thread}
use files_co.Threads.Scheduler.Laws.{
  Lined, Queued, Runs, retire-Lined, requeue-Lined, requeue_off, take_over_state, take_over-Queued,
}

retire_state :
    (p t : ℕ) (k : Kernel)
    → is_finishing (k.threads t).state ≡ false
    → ((retire p k).threads t).state ≡ (k.threads t).state
unfolding retire
retire_state p t k h = elim (Bool-cases (is_finishing (k.threads p).state)) [
  | inl e ↦ elim (Bool-cases (t == p)) [
    | inl s ↦ let q : t ≡ p = ground arith in let h' = rw q at h in absurd (ground arith)
    | inr s ↦ rw (e, s) refl
  ]
  | inr e ↦ rw e refl
]

retire_queue : (p : ℕ) (k : Kernel) → (retire p k).runqueue ≡ k.runqueue
unfolding retire
retire_queue p k = elim (Bool-cases (is_finishing (k.threads p).state)) [
  | inl e ↦ rw e refl
  | inr e ↦ rw e refl
]

requeue_threads : (p : ℕ) (k : Kernel) → (requeue p k).threads ≡ k.threads
unfolding requeue
requeue_threads p k = elim (Bool-cases (is_active (k.threads p).state)) [
  | inl e ↦ rw e refl
  | inr e ↦ rw e refl
]

-- What scheduling leaves: a thread that may run, on the same idle thread; no thread changes its
-- state but one that finishes.
pub record Scheduled (k k' : Kernel) : Type 0 where
  pub queued : Queued k'
  pub runs : Runs k'
  pub idler : k'.idle_thread ≡ k.idle_thread
  pub preempt : k.preempt_cnt ≡ 0 → k'.preempt_cnt ≡ 0
  pub kept :
      (t : ℕ)
      → is_finishing (k.threads t).state ≡ false
      → (k'.threads t).state ≡ (k.threads t).state

runnable_not-finishing : (s : ThreadState) → (s ≡ active) ⊎ (s ≡ idle) → is_finishing s ≡ false
runnable_not-finishing s (inl e) = rw e refl
runnable_not-finishing s (inr e) = rw e refl

-- The counter of preemption and the interrupt flag play no part.
Lined-spin :
    (n : ℕ) (b : Bool) (k : Kernel) → Lined k → Lined (record k { preempt_cnt = n; ints = b })
Lined-spin n b k l = record { once = l.once; queued = l.queued; idler = l.idler }

retire_idle : (p : ℕ) (k : Kernel) → (retire p k).idle_thread ≡ k.idle_thread
unfolding retire
retire_idle p k = elim (Bool-cases (is_finishing (k.threads p).state)) [
  | inl e ↦ rw e refl
  | inr e ↦ rw e refl
]

requeue_idle : (p : ℕ) (k : Kernel) → (requeue p k).idle_thread ≡ k.idle_thread
unfolding requeue
requeue_idle p k = elim (Bool-cases (is_active (k.threads p).state)) [
  | inl e ↦ rw e refl
  | inr e ↦ rw e refl
]

retire_preempt : (p : ℕ) (k : Kernel) → (retire p k).preempt_cnt ≡ k.preempt_cnt
unfolding retire
retire_preempt p k = elim (Bool-cases (is_finishing (k.threads p).state)) [
  | inl e ↦ rw e refl
  | inr e ↦ rw e refl
]

requeue_preempt : (p : ℕ) (k : Kernel) → (requeue p k).preempt_cnt ≡ k.preempt_cnt
unfolding requeue
requeue_preempt p k = elim (Bool-cases (is_active (k.threads p).state)) [
  | inl e ↦ rw e refl
  | inr e ↦ rw e refl
]

-- `place_thread` up to the change of the current thread.
unfoldable put_back : Kernel → Kernel
unfolding spin_lock spin_unlock
put_back k = spin_unlock (requeue k.current (spin_lock (retire k.current k)))

put_back_state :
    (t : ℕ) (k : Kernel)
    → is_finishing (k.threads t).state ≡ false
    → ((put_back k).threads t).state ≡ (k.threads t).state
unfolding put_back spin_lock spin_unlock
put_back_state t k h =
    rw (requeue_threads k.current (spin_lock (retire k.current k))) (retire_state k.current t k h)

put_back-Lined : (k : Kernel) → Queued k → Lined (put_back k)
unfolding put_back spin_lock spin_unlock
put_back-Lined k q =
    let r = retire k.current k in
    let off : has k.current r.runqueue ≡ false = rw (retire_queue k.current k) q.off in
    let l1 =
      Lined-spin ((r.preempt_cnt + 1) % 2 ^ 32) r.ints r (retire-Lined k.current k q.lined q.off) in
    let l2 = requeue-Lined k.current (spin_lock r) l1 off in
    let p = requeue k.current (spin_lock r) in
    Lined-spin ((p.preempt_cnt + 2 ^ 32 - 1) % 2 ^ 32) p.ints p l2

put_back_off :
    (next : ℕ) (k : Kernel)
    → has next k.runqueue ≡ false
    → (next == k.current) ≡ false
    → has next (put_back k).runqueue ≡ false
unfolding put_back spin_lock spin_unlock
put_back_off next k off ne =
    requeue_off k.current next (spin_lock (retire k.current k)) (rw (retire_queue k.current k) off)
      ne

put_back_idle : (k : Kernel) → (put_back k).idle_thread ≡ k.idle_thread
unfolding put_back spin_lock spin_unlock
put_back_idle k =
    rw (requeue_idle k.current (spin_lock (retire k.current k))) (retire_idle k.current k)

put_back_preempt : (k : Kernel) → k.preempt_cnt ≡ 0 → (put_back k).preempt_cnt ≡ 0
unfolding put_back spin_lock spin_unlock
put_back_preempt k z =
    rw (requeue_preempt k.current (spin_lock (retire k.current k)), retire_preempt k.current k, z)
      refl

place_thread_lem : (next : ℕ) (k : Kernel) → place_thread next k ≡ take_over next (put_back k)
unfolding place_thread put_back
place_thread_lem next k = refl

take_over-Runs :
    (next : ℕ) (k : Kernel)
    → ((k.threads next).state ≡ active) ⊎ ((k.threads next).state ≡ idle)
    → Runs (take_over next k)
unfolding take_over
take_over-Runs next k runs = rw same runs
  where
    same : ((take_over next k).threads (take_over next k).current).state ≡ (k.threads next).state
    same = take_over_state next next k

pub place_thread-Scheduled :
    (next : ℕ) (k : Kernel)
    → Queued k
    → has next k.runqueue ≡ false
    → (next == k.current) ≡ false
    → ((k.threads next).state ≡ active) ⊎ ((k.threads next).state ≡ idle)
    → Scheduled k (place_thread next k)
place_thread-Scheduled next k q off ne runs = rw (place_thread_lem next k) (record {
  queued = take_over-Queued next (put_back k) (put_back-Lined k q) (put_back_off next k off ne);
  runs = take_over-Runs next (put_back k) (rw same runs);
  idler = unfold take_over in (put_back_idle k);
  preempt = λ z. unfold take_over in (put_back_preempt k z);
  kept = λ t h. rw (take_over_state next t (put_back k)) (put_back_state t k h);
})
  where
    same : ((put_back k).threads next).state ≡ (k.threads next).state
    same = put_back_state next k (runnable_not-finishing (k.threads next).state runs)
