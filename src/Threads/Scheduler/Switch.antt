-- ===== src/Threads/Scheduler/Switch.antt =====
-- `__schedule` and `schedule` of src/threads.c keep the run queue.
use files_co.Base.{
  ℕ, ◌+◌, ◌-◌, ◌%◌, ◌^◌, ◌≡◌, ◌⊎◌, inl, inr, refl, Bool, true, false, not, ◌&&◌, some, List, [],
  ◌∷◌, ◌∙◌, ◌==◌, ltb, has, arith, Bool-cases, List-cases, sym, ap,
}
use files_co.Threads.Spinlock.{
  idle, active, Kernel, spin_lock, spin_unlock, disable_ints, enable_ints,
}
use files_co.Threads.Scheduler.{
  slice, is_active, pick_next, switch_to, schedule_now, is_thread, choose, current_time, save_ints,
  restore_ints,
}
use files_co.Threads.Scheduler.Laws.{Lined, Queued, Runs, active_of}
use files_co.Threads.Scheduler.Place.{Scheduled, place_thread-Scheduled}

stay-Scheduled : (k : Kernel) → Queued k → Runs k → Scheduled k k
stay-Scheduled k q r = record {
  queued = q;
  runs = r;
  idler = refl;
  preempt = λ z. z;
  kept = λ t h. refl;
}

pub idle_off : (k : Kernel) (i : ℕ) → Lined k → k.idle_thread ≡ some i → has i k.runqueue ≡ false
idle_off k i l e = elim (Bool-cases (has i k.runqueue)) [
  | inl h ↦ let c : active ≡ idle = sym (l.queued i h) ∙ l.idler i e in absurd (ground arith)
  | inr h ↦ h
]

-- The switch at the end of `__schedule`, with the thread that was picked.
switch_to-Scheduled :
    (k : Kernel) (i next : ℕ)
    → Queued k
    → k.idle_thread ≡ some i
    → has next k.runqueue ≡ false
    → ((next ≡ i) ⊎ ((next == k.current) ≡ false) × ((k.threads next).state ≡ active))
    → Scheduled k (switch_to (some next) k)
unfolding switch_to
switch_to-Scheduled k i next q e off (inl s) =
    let st : (k.threads next).state ≡ idle = rw s (q.idler i e) in
    let same : is_thread k.idle_thread next ≡ true = rw e (ground arith) in
    elim (Bool-cases (next == k.current)) [
      | inl c ↦
          let h : next ≡ k.current = ground arith in rw c (stay-Scheduled k q (inr (rw h at st)))
      | inr c ↦ elim (Bool-cases (is_active (k.threads k.current).state)) [
        | inl a ↦
            rw (c, same, a) (stay-Scheduled k q (inl (active_of (k.threads k.current).state a)))
        | inr a ↦ rw (c, same, a) (place_thread-Scheduled next k q off c (inr st))
      ]
    ]
switch_to-Scheduled k i next q e off (inr (ne, act)) =
    let differ : is_thread k.idle_thread next ≡ false = rw e (not_idle (Bool-cases (i == next))) in
    rw (ne, differ) (place_thread-Scheduled next k q off ne (inl act))
  where
    not_idle : ((i == next) ≡ true) ⊎ ((i == next) ≡ false) → (i == next) ≡ false
    not_idle (inl s) =
        let h : next ≡ i = ground arith in
        let clash : active ≡ idle = sym (rw h at act) ∙ q.idler i e in absurd (ground arith)
    not_idle (inr s) = s

-- The kernel once the run queue's lock was taken and released around the choice.
abbrev pub picked : List ℕ → Kernel → Kernel
picked rest k = record k {
  runqueue = rest;
  preempt_cnt = ((k.preempt_cnt + 1) % 2 ^ 32 + 2 ^ 32 - 1) % 2 ^ 32;
}

from_picked : (rest : List ℕ) (k k' : Kernel) → Scheduled (picked rest k) k' → Scheduled k k'
from_picked rest k k' s = record {
  queued = s.queued;
  runs = s.runs;
  idler = s.idler;
  preempt = λ z. s.preempt (rw z refl);
  kept = s.kept;
}

picked-Queued :
    (x : ℕ) (rest : List ℕ) (k : Kernel) → Queued k → k.runqueue ≡ x ∷ rest → Queued (picked rest k)
picked-Queued x rest k q e = record {
  lined = record {
    once = (rw e at q.once).1;
    queued = λ t h. q.queued t (rw e (ground arith));
    idler = q.idler;
  };
  off = let o : has k.current (x ∷ rest) ≡ false = rw e at q.off in ground arith;
}

pick_next_empty : (k : Kernel) → k.runqueue ≡ [] → pick_next k ≡ (k.idle_thread, k)
unfolding pick_next
pick_next_empty k e = rw e refl

pick_next_first :
    (x : ℕ) (rest : List ℕ) (k : Kernel)
    → k.runqueue ≡ x ∷ rest
    → pick_next k ≡ (some x, record k { runqueue = rest })
unfolding pick_next
pick_next_first x rest k e = rw e refl

pub choose_idle :
    (k : Kernel) (i : ℕ)
    → k.runqueue ≡ []
    → k.idle_thread ≡ some i
    → choose k ≡ switch_to (some i) (picked k.runqueue k)
unfolding choose spin_lock spin_unlock
choose_idle k i e h =
    rw (pick_next_empty (spin_lock k) e) (ap (λ o. switch_to o (picked k.runqueue k)) h)

pub choose_first :
    (x : ℕ) (rest : List ℕ) (k : Kernel)
    → k.runqueue ≡ x ∷ rest
    → choose k ≡ switch_to (some x) (picked rest k)
unfolding choose spin_lock spin_unlock
choose_first x rest k e = rw (pick_next_first x rest (spin_lock k) e) refl

unlocked-Queued : (k : Kernel) → Queued k → Queued (picked k.runqueue k)
unlocked-Queued k q = record {
  lined = record { once = q.once; queued = q.queued; idler = q.idler };
  off = q.off;
}

choose-Scheduled : (k : Kernel) (i : ℕ) → Queued k → k.idle_thread ≡ some i → Scheduled k (choose k)
choose-Scheduled k i q e = elim (List-cases k.runqueue) [
  | inl z ↦ rw (choose_idle k i z e) (
      from_picked k.runqueue k (switch_to (some i) (picked k.runqueue k)) (
        switch_to-Scheduled (picked k.runqueue k) i i (unlocked-Queued k q) e
          (idle_off k i q.lined e) (inl refl)))
  | inr (x, rest, z) ↦ rw (choose_first x rest k z) (
      from_picked rest k (switch_to (some x) (picked rest k)) (
        switch_to-Scheduled (picked rest k) i x (picked-Queued x rest k q z) e (rw z at q.once).0
          (inr (first_differs x rest z, q.queued x (rw z (ground arith))))))
]
  where
    first_differs : (x : ℕ) (rest : List ℕ) → k.runqueue ≡ x ∷ rest → (x == k.current) ≡ false
    first_differs x rest z =
        let o : has k.current (x ∷ rest) ≡ false = rw z at q.off in ground arith

pub schedule_now-Scheduled :
    (force : Bool) (k : Kernel) (i : ℕ)
    → Queued k
    → k.idle_thread ≡ some i
    → Scheduled k (schedule_now force k)
unfolding schedule_now
schedule_now-Scheduled force k i q e =
    elim (Bool-cases (
      not force
      && is_active (k.threads k.current).state
      && ltb ((current_time k + 2 ^ 64 - (k.threads k.current).time) % 2 ^ 64) slice)) [
        | inl c ↦
            rw c (stay-Scheduled k q (inl (active_of (k.threads k.current).state (ground arith))))
        | inr c ↦ rw c (choose-Scheduled k i q e)
      ]

restore-Scheduled : (k k' : Kernel) → Scheduled k k' → Scheduled k (restore_ints k')
unfolding restore_ints enable_ints
restore-Scheduled k k' s = elim (Bool-cases (k'.saved k'.current)) [
  | inr e ↦ rw e s
  | inl e ↦ rw e (record {
    queued = record {
      lined = record { once = s.queued.once; queued = s.queued.queued; idler = s.queued.idler };
      off = s.queued.off;
    };
    runs = s.runs;
    idler = s.idler;
    preempt = s.preempt;
    kept = s.kept;
  })
]

pub under_ints :
    (k : Kernel) (force : Bool) (i : ℕ)
    → Queued k
    → k.idle_thread ≡ some i
    → Scheduled k (restore_ints (schedule_now force (save_ints k)))
under_ints k force i q e =
    let s =
      schedule_now-Scheduled force (save_ints k) i
        (unfold save_ints in
          (unfold disable_ints in
            (record {
              lined = record { once = q.once; queued = q.queued; idler = q.idler };
              off = q.off;
            })))
        (unfold save_ints in (unfold disable_ints in e)) in
    restore-Scheduled k (schedule_now force (save_ints k)) (
      unfold save_ints in
      (unfold disable_ints in
        (record {
          queued = s.queued;
          runs = s.runs;
          idler = s.idler;
          preempt = s.preempt;
          kept = s.kept;
        })))
