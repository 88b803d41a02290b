-- ===== src/Kernel/Cond/Waiting.antt =====
-- `wait` of src/system/cond.c: parking on a condition, with the mutex released on the way.
use teatime_os.Base.{
  ℕ, suc, ◌≡◌, ◌≢◌, refl, subst, Bool, true, false, ◌||◌, arith, if◌then◌else◌, inl, inr,
  Bool-cases, Option, some, none,
}
use teatime_os.Kernel.State.{
  Kernel, Status, is_curr, is_timed_wait, is_cond_wait, status_of, priority_of, set_timed_out,
}
use teatime_os.Kernel.Placed.{Waits, IsPlaced}
use teatime_os.Kernel.Moves.{aim_cond, aim_sem, Placed-loose}
use teatime_os.Kernel.Parking.{Placed-to_cond}
use teatime_os.Kernel.Sched.{sched}
use teatime_os.Kernel.Scheduling.{PlacedIn-set_status}
use teatime_os.Kernel.Wake.{IsSound, Woken-from, Woken-refl, Woken-IsSound, resched, sched-IsSound}
use teatime_os.Kernel.Sem.{signal, sem_signal, mutex_lock, mutex_unlock, is_positive, sem_count}
use teatime_os.Kernel.Sem.Soundness.{signal-Woken, sem_wait-IsSound}
use teatime_os.Kernel.Sleep.{sleep_enqueue}
use teatime_os.Kernel.Sleep.Soundness.{mark_asleep, status-set_timed_out, priority-set_timed_out}
use teatime_os.Kernel.Cond.{
  mark, park_cond, unlock_given, lock_given, Entered, returned, switched, wait, wait_resume,
}
use teatime_os.Kernel.Cond.Soundness.{set_pending-Woken}

set_timed_out-IsSound : (k : Kernel) (x : ℕ) (b : Bool) → IsSound k → IsSound (set_timed_out k x b)
set_timed_out-IsSound k x b v =
    let st = status-set_timed_out k x b in
    let pr = priority-set_timed_out k x b in
    let p = v.settled.is_placed in
    Woken-IsSound v (
      Woken-from {k = k} st pr refl refl (
        Woken-refl (set_timed_out k x b) v.waits (record {
          placed = rw (st, pr) p.placed;
          running = λ q h. p.running q (subst (λ (f : ℕ → Status). is_curr (f q) ≡ true) st h);
          null_ready = rw st p.null_ready;
        })))

-- The current process marked as waiting for a condition that it has not joined yet.
record IsMarked (k : Kernel) (x : ℕ) (w : Waits) : Type 0 where
  placed : IsPlaced k w
  waits : (is_cond_wait (status_of k x) || is_timed_wait (status_of k x)) ≡ true
  aimless : w.cond_of x ≡ 0

mark-IsMarked :
    (k : Kernel) (timed : Bool) (delay : ℕ)
    → IsSound k
    → k.curr_pid ≢ 0
    → (w : Waits) × IsMarked (mark k timed delay) k.curr_pid w
unfolding mark sleep_enqueue
mark-IsMarked k true delay v busy =
    let k' : Kernel = set_timed_out k k.curr_pid false in
    let m = mark_asleep k' delay (set_timed_out-IsSound k k.curr_pid false v) busy in
    (m.0, record { placed = m.2; waits = ground arith; aimless = m.1 })
mark-IsMarked k false delay v busy =
    let x = k.curr_pid in
    let k' : Kernel = set_timed_out k x false in
    let v' = set_timed_out-IsSound k x false v in
    let w : Waits = aim_sem (aim_cond v'.waits x 0) x 0 in
    let p = v'.settled.is_placed in
    (
      w,
      record {
        placed = record {
          placed = PlacedIn-set_status k' w x Status.cond_wait (
              Placed-loose p.placed x Status.cond_wait 0 0 (ground (arith, v'.settled.current))
                refl);
          running = λ q h. ground (arith, p.running q);
          null_ready = ground (arith, p.null_ready, p.running 0);
        };
        waits = ground arith;
        aimless = ground arith;
      },
    )

mark_same : (k : Kernel) (timed : Bool) (delay : ℕ) → (mark k timed delay).curr_pid ≡ k.curr_pid
unfolding mark sleep_enqueue
mark_same k true delay = refl
mark_same k false delay = refl

-- Parked: on the queue of the condition too, and no longer marked as running.
park_cond-IsPlaced :
    (k : Kernel) (c : ℕ) (timed : Bool) (delay : ℕ)
    → IsSound k
    → k.curr_pid ≢ 0
    → (w : Waits) × IsPlaced (park_cond k c timed delay) w
      × (is_curr (status_of (park_cond k c timed delay) (park_cond k c timed delay).curr_pid)
          ≡ false)
unfolding park_cond
park_cond-IsPlaced k c timed delay v busy =
    let k' : Kernel = mark k timed delay in
    let (w, m) = mark-IsMarked k timed delay v busy in
    let at : k'.curr_pid ≡ k.curr_pid = mark_same k timed delay in
    let waits : (is_cond_wait (status_of k' k'.curr_pid)
          || is_timed_wait (status_of k' k'.curr_pid))
        ≡ true =
      rw at m.waits in
    (
      aim_cond w k'.curr_pid (suc c),
      record {
        placed =
            Placed-to_cond m.placed.placed k'.curr_pid c (priority_of k' k'.curr_pid)
              (k'.condtab c).pending (k'.condtab c).used waits (rw at m.aimless);
        running = m.placed.running;
        null_ready = m.placed.null_ready;
      },
      ground (arith, waits),
    )

-- A kernel whose current process has been parked is sound once the switch has been made.
abbrev switch_away : Kernel → Kernel
switch_away k = if is_curr (status_of k k.curr_pid) then k else sched k

unlock-IsSound :
    (k : Kernel) (w : Waits) (m : ℕ)
    → IsPlaced k w
    → is_curr (status_of k k.curr_pid) ≡ false
    → IsSound (switch_away (sem_signal k m))
unfolding sem_signal resched
unlock-IsSound k w m v parked =
    let u = signal-Woken k w m v in
    elim (Bool-cases (signal k m).need_resched) [
      | inl e ↦ let s = sched-IsSound (signal k m) u.waits u.placed in simp (e, s.settled.current) s
      | inr e ↦ simp (e, u.marked, parked) (sched-IsSound (signal k m) u.waits u.placed)
    ]

unlock_given-IsSound :
    (k : Kernel) (w : Waits) (mutex : Option ℕ)
    → IsPlaced k w
    → is_curr (status_of k k.curr_pid) ≡ false
    → IsSound (switch_away (unlock_given k mutex))
unfolding unlock_given mutex_unlock
unlock_given-IsSound k w none v parked = rw parked (sched-IsSound k w v)
unlock_given-IsSound k w (some m) v parked = elim (Bool-cases (is_positive (sem_count k m))) [
  | inl e ↦ rw (e, parked) (sched-IsSound k w v)
  | inr e ↦ rw e (unlock-IsSound k w m v parked)
]

abbrev pub SoundEntered : Entered → Type 0
SoundEntered (returned k) = IsSound k
SoundEntered (switched k) = IsSound k

pub wait-IsSound :
    (k : Kernel) (c : ℕ) (mutex : Option ℕ) (timed : Bool) (delay : ℕ)
    → IsSound k
    → k.curr_pid ≢ 0
    → SoundEntered (wait k c mutex timed delay)
unfolding wait
wait-IsSound k c mutex timed delay v busy = elim (Bool-cases (k.condtab c).pending) [
  | inl e ↦ rw e (Woken-IsSound v (set_pending-Woken k v.waits c false v.settled.is_placed))
  | inr e ↦
      let (w, p, parked) = park_cond-IsPlaced k c timed delay v busy in
      rw e (unlock_given-IsSound (park_cond k c timed delay) w mutex p parked)
]

pub wait_resume-IsSound :
    (k : Kernel) (mutex : Option ℕ) → IsSound k → k.curr_pid ≢ 0 → IsSound (wait_resume k mutex).0
unfolding wait_resume lock_given mutex_lock
wait_resume-IsSound k none v busy = v
wait_resume-IsSound k (some m) v busy = sem_wait-IsSound k m v busy
