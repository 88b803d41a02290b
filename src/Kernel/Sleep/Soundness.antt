-- ===== src/Kernel/Sleep/Soundness.antt =====
-- The timed waits of src/system/sleep.c keep the kernel sound.
use mathlib.Core.Path.{fun_ext}
use teatime_os.Base.{
  ℕ, ◌≡◌, ◌≢◌, refl, ap, subst, ◌∙◌, Bool, true, List, [], ◌∷◌, arith, inl, inr, Bool-cases, ==→eq,
  add32,
}
use teatime_os.Kernel.State.{
  Kernel, Status, Sleeper, timed_wait, cond_wait, is_curr, is_timed_wait, status_of, priority_of,
  set_status, set_timed_out,
}
use teatime_os.Kernel.Placed.{Waits, IsPlaced}
use teatime_os.Kernel.Moves.{aim_cond, aim_sem, Placed-loose}
use teatime_os.Kernel.Parking.{Placed-remove, Placed-from_sleep, Placed-to_sleep}
use teatime_os.Kernel.SleepList.{sleep_delete, at_or_before}
use teatime_os.Kernel.Sched.{make_avail}
use teatime_os.Kernel.Scheduling.{PlacedIn-set_status}
use teatime_os.Kernel.Wake.{
  IsSound, Woken, Woken-trans, Woken-from, Woken-refl, update-update, make_avail-Woken,
  sched-IsSound,
}
use teatime_os.Kernel.Sleep.{sleep_enqueue, sleep, proc_remove, time_out, wake_due, sleep_clock}

pub status-set_timed_out :
    (k : Kernel) (x : ℕ) (b : Bool) → status_of (set_timed_out k x b) ≡ status_of k
status-set_timed_out k x b = fun_ext λ p. ground (arith, ==→eq x p)

pub priority-set_timed_out :
    (k : Kernel) (x : ℕ) (b : Bool) → priority_of (set_timed_out k x b) ≡ priority_of k
priority-set_timed_out k x b = fun_ext λ p. ground (arith, ==→eq x p)

sleep_delete-head : (e : Sleeper) (l : List Sleeper) → sleep_delete e.pid (e ∷ l) ≡ l
unfolding sleep_delete
sleep_delete-head e l = ground arith

-- A sleeper that is due is woken, and taken off the condition that it waited for too.
time_out-Woken :
    (k : Kernel) (w : Waits) (e : Sleeper) (l : List Sleeper)
    → IsPlaced k w
    → k.sleep_list ≡ e ∷ l
    → Woken k (time_out (record k { sleep_list = l }) e.pid)
unfolding time_out proc_remove
time_out-Woken k w e l v at =
    let x = e.pid in
    let gone : Kernel = proc_remove (record k { sleep_list = l }) x in
    let asleep : is_timed_wait (status_of k x) ≡ true =
      ground (arith, v.placed.sleepers.holds x, at) in
    let short : sleep_delete x k.sleep_list ≡ l =
      ap (sleep_delete e.pid) at ∙ sleep_delete-head e l in
    let st = status-set_timed_out gone x true in
    let pr = priority-set_timed_out gone x true in
    Woken-from {k = k} st pr refl refl (
      make_avail-Woken (set_timed_out gone x true) (aim_cond w x 0) x cond_wait (record {
        placed =
            rw (st, pr)
              (rw short at (Placed-from_sleep (Placed-remove v.placed x asleep) x asleep));
        loose = ground arith;
        waits = rw st (ground arith);
        running = λ p h. v.running p (subst (λ (f : ℕ → Status). is_curr (f p) ≡ true) st h);
        null_ready = rw st v.null_ready;
      }))

sleep_list-time_out : (k : Kernel) (x : ℕ) → (time_out k x).sleep_list ≡ k.sleep_list
unfolding time_out proc_remove make_avail
sleep_list-time_out k x = refl

wake_due-Woken :
    (l : List Sleeper) (k : Kernel) (w : Waits)
    → IsPlaced k w
    → k.sleep_list ≡ l
    → Woken k (wake_due l k)
unfolding wake_due
wake_due-Woken [] k w v at = Woken-refl k w v
wake_due-Woken (e ∷ l) k w v at = elim (Bool-cases (at_or_before e.wake_at k.tick_count)) [
  | inl due ↦
      let first = time_out-Woken k w e l v at in
      rw due (
        Woken-trans first (
          wake_due-Woken l (time_out (record k { sleep_list = l }) e.pid) first.waits first.placed
            (sleep_list-time_out (record k { sleep_list = l }) e.pid)))
  | inr later ↦ rw later (Woken-refl k w v)
]

pub sleep_clock-Woken : (k : Kernel) (w : Waits) → IsPlaced k w → Woken k (sleep_clock k)
unfolding sleep_clock
sleep_clock-Woken k w v = Woken-from {k = k} refl refl refl refl (
    wake_due-Woken k.sleep_list (record k { tick_count = add32 k.tick_count 1 }) w
      (record { placed = v.placed; running = v.running; null_ready = v.null_ready }) refl)

-- The current process on the sleep list, and on no other.
pub mark_asleep :
    (k : Kernel) (delay : ℕ)
    → IsSound k
    → k.curr_pid ≢ 0
    → (w : Waits) × (w.cond_of k.curr_pid ≡ 0)
      × IsPlaced (sleep_enqueue (set_status k k.curr_pid timed_wait) k.curr_pid delay) w
unfolding sleep_enqueue
mark_asleep k delay v busy =
    let x = k.curr_pid in
    let w : Waits = aim_sem (aim_cond v.waits x 0) x 0 in
    let p = v.settled.is_placed in
    let loose = Placed-loose p.placed x cond_wait 0 0 (ground (arith, v.settled.current)) refl in
    let asleep = Placed-to_sleep loose x (add32 k.tick_count delay) (ground arith) (ground arith) in
    (
      w,
      ground arith,
      record {
        placed =
            PlacedIn-set_status (sleep_enqueue k x delay) w x timed_wait
              (rw (update-update (status_of k) x cond_wait timed_wait) at asleep);
        running = λ q h. ground (arith, p.running q);
        null_ready = ground (arith, p.null_ready, p.running 0);
      },
    )

pub sleep-IsSound : (k : Kernel) (delay : ℕ) → IsSound k → k.curr_pid ≢ 0 → IsSound (sleep k delay)
unfolding sleep
sleep-IsSound k delay v busy =
    let m = mark_asleep k delay v busy in
    sched-IsSound (sleep_enqueue (set_status k k.curr_pid timed_wait) k.curr_pid delay) m.0 m.2
