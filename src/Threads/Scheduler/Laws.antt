-- ===== src/Threads/Scheduler/Laws.antt =====
-- What src/threads.c keeps true of the run queue.
use files_co.Base.{
  ℕ, ◌≡◌, ◌≢◌, ◌⊎◌, inl, inr, refl, true, false, ◌||◌, some, [], ◌∷◌, ◌==◌, has, has-append,
  Distinct, Distinct-snoc, arith, Bool-cases,
}
use files_co.Threads.Spinlock.{ThreadState, idle, active, blocked, finishing, finished, Kernel}
use files_co.Threads.Scheduler.{is_active, is_finishing, set_state, retire, requeue, take_over}

-- The threads on the run queue are active, and on it once; the idle thread is in its own state.
pub record Lined (k : Kernel) : Type 0 where
  pub once : Distinct k.runqueue
  pub queued : (t : ℕ) → has t k.runqueue ≡ true → (k.threads t).state ≡ active
  pub idler : (i : ℕ) → k.idle_thread ≡ some i → (k.threads i).state ≡ idle

-- The running thread is not on the run queue.
pub record Queued (k : Kernel) : Type 0 where
  pub lined : Lined k
  pub open lined use *
  pub off : has k.current k.runqueue ≡ false

-- The running thread may run.
abbrev pub Runs : Kernel → Type 0
Runs k = ((k.threads k.current).state ≡ active) ⊎ ((k.threads k.current).state ≡ idle)

pub active_of : (s : ThreadState) → is_active s ≡ true → s ≡ active
active_of active e = refl
active_of idle e = absurd (ground arith)
active_of blocked e = absurd (ground arith)
active_of finishing e = absurd (ground arith)
active_of finished e = absurd (ground arith)

-- A thread that is not on the run queue and not the idle thread may change its state.
pub set_state-Lined :
    (p : ℕ) (s : ThreadState) (k : Kernel)
    → Lined k
    → has p k.runqueue ≡ false
    → (k.threads p).state ≢ idle
    → Lined (set_state p s k)
set_state-Lined p s k l off ne = record {
  once = l.once;
  queued = λ t h. ground (arith, l.queued t h);
  idler = λ i h. elim (Bool-cases (i == p)) [
    | inl e ↦ let q : i ≡ p = ground arith in absurd (ne (rw q at (l.idler i h)))
    | inr e ↦ rw e (l.idler i h)
  ];
}

pub retire-Lined : (p : ℕ) (k : Kernel) → Lined k → has p k.runqueue ≡ false → Lined (retire p k)
unfolding retire
retire-Lined p k l off = elim (Bool-cases (is_finishing (k.threads p).state)) [
  | inl e ↦ rw e (
      set_state-Lined p finished k l off
        (λ i. let e' : is_finishing idle ≡ true = rw i at e in absurd (ground arith)))
  | inr e ↦ rw e l
]

pub requeue-Lined : (p : ℕ) (k : Kernel) → Lined k → has p k.runqueue ≡ false → Lined (requeue p k)
unfolding requeue
requeue-Lined p k l off = elim (Bool-cases (is_active (k.threads p).state)) [
  | inl e ↦ rw e (record {
    once = Distinct-snoc k.runqueue p l.once off;
    queued = λ t h. queued_too t e (rw (has-append t k.runqueue (p ∷ [])) at h);
    idler = l.idler;
  })
  | inr e ↦ rw e l
]
  where
    queued_too :
        (t : ℕ)
        → is_active (k.threads p).state ≡ true
        → (has t k.runqueue || has t (p ∷ [])) ≡ true
        → (k.threads t).state ≡ active
    queued_too t e h = elim (Bool-cases (t == p)) [
      | inl s ↦ let q : t ≡ p = ground arith in rw q (active_of (k.threads p).state e)
      | inr s ↦ l.queued t (ground arith)
    ]

pub requeue_off :
    (p next : ℕ) (k : Kernel)
    → has next k.runqueue ≡ false
    → (next == p) ≡ false
    → has next (requeue p k).runqueue ≡ false
unfolding requeue
requeue_off p next k off ne =
    let a = has-append next k.runqueue (p ∷ []) in
    elim (Bool-cases (is_active (k.threads p).state)) [
      | inl e ↦ rw (e, a) (ground arith)
      | inr e ↦ rw e off
    ]

-- Taking over changes no state.
pub take_over_state :
    (next t : ℕ) (k : Kernel) → ((take_over next k).threads t).state ≡ (k.threads t).state
unfolding take_over
take_over_state next t k = elim (Bool-cases (t == next)) [
  | inl e ↦ let q : t ≡ next = ground arith in rw (q) (ground arith)
  | inr e ↦ rw e refl
]

pub take_over-Queued :
    (next : ℕ) (k : Kernel) → Lined k → has next k.runqueue ≡ false → Queued (take_over next k)
unfolding take_over
take_over-Queued next k l off = record {
  lined = record {
    once = l.once;
    queued = λ t h. rw (take_over_state next t k) (l.queued t (h));
    idler = λ i h. rw (take_over_state next i k) (l.idler i (h));
  };
  off = off;
}
