-- ===== src/Kernel/Process/History.antt =====
-- Every interleaving of kernel calls and interrupts, from the tables that src/system/start.c sets up.
use teatime_os.Base.{ℕ, ◌+◌, ap, ==→eq, ◌≡◌, refl, true, false, arith, ◌==◌, inl, inr, Bool-cases}
use teatime_os.Kernel.State.{Kernel, is_curr, unavail, status_of}
use teatime_os.Kernel.Placed.{Waits, IsPlaced}
use teatime_os.Kernel.Wake.{
  IsSound, Woken, Woken-from, Woken-refl, Woken-IsSound, resched-IsSound, sched-IsSound,
}
use teatime_os.Kernel.Sem.{mutex_unlock, sem_count, is_positive, mutex_create}
use teatime_os.Kernel.Sem.Soundness.{sem_wait-IsSound, sem_signal-IsSound}
use teatime_os.Kernel.Sleep.{sleep_clock}
use teatime_os.Kernel.Sleep.Soundness.{sleep-IsSound, sleep_clock-Woken}
use teatime_os.Kernel.Cond.{Entered, wait, cond_signal_isr, cond_clock}
use teatime_os.Kernel.Cond.Soundness.{
  cond_signal-IsSound, cond_broadcast-IsSound, cond_signal_isr-Woken, cond_signal_nmi-IsSound,
  cond_clock-Woken,
}
use teatime_os.Kernel.Cond.Waiting.{SoundEntered, wait-IsSound, wait_resume-IsSound}
use teatime_os.Kernel.Process.{System, yield_now, count_second, handle_cpu_timer_intr}
use teatime_os.Kernel.Process.Spawning.{
  claim-Woken, give_back-Woken, occupy-Woken, make_avail_claimed-Woken, exit-IsSound,
}
use teatime_os.Kernel.Process.Boot.{Boots, Boots-IsStarting}
use teatime_os.Kernel.Process.Steps.{
  entered, at_kernel, Step, waits_sem, signals_sem, unlocks, waits_cond, resumes, signals_cond,
  broadcasts, sleeps_for, yields, claims, allocates_stack, gives_back, fills, launches, makes_sem,
  makes_mutex, makes_cond, exits, ticks, interrupts, nmis, Reach, here, next,
}
use teatime_os.Kernel.Sem.Creation.{sem_create-Woken}
use teatime_os.Kernel.Cond.Creation.{cond_create-Woken}

count_second-Woken : (k : Kernel) (w : Waits) → IsPlaced k w → Woken k (count_second k)
unfolding count_second
count_second-Woken k w v = elim (Bool-cases (k.tick_in_sec + 1 == 1000)) [
  | inl e ↦ rw e (same _ _)
  | inr e ↦ rw e (same _ _)
]
  where
    same : (t c : ℕ) → Woken k (record k { tick_in_sec = t; clktime = c })
    same t c = Woken-from {k = k} refl refl refl refl (
        Woken-refl (record k { tick_in_sec = t; clktime = c }) w
          (record { placed = v.placed; running = v.running; null_ready = v.null_ready }))

-- The tick settles the kernel, also the one that is still starting up.
pub tick-IsSound : (k : Kernel) (w : Waits) → IsPlaced k w → IsSound (handle_cpu_timer_intr k)
unfolding handle_cpu_timer_intr
tick-IsSound k w v =
    let counted = count_second-Woken k w v in
    let woken = sleep_clock-Woken (count_second k) counted.waits counted.placed in
    let told = cond_clock-Woken (sleep_clock (count_second k)) woken.waits woken.placed in
    sched-IsSound (cond_clock (sleep_clock (count_second k))) told.waits told.placed

entered-IsSound : (e : Entered) → SoundEntered e → IsSound (entered e)
entered-IsSound (Entered.returned k) v = v
entered-IsSound (Entered.switched k) v = v

pub mutex_unlock-IsSound : (k : Kernel) (m : ℕ) → IsSound k → IsSound (mutex_unlock k m)
unfolding mutex_unlock
mutex_unlock-IsSound k m v = elim (Bool-cases (is_positive (sem_count k m))) [
  | inl e ↦ rw e v
  | inr e ↦ rw e (sem_signal-IsSound k m v)
]

-- A row that is not marked as running is not the current process's.
not_current :
    (k : Kernel) (p : ℕ)
    → is_curr (status_of k k.curr_pid) ≡ true
    → is_curr (status_of k p) ≡ false
    → (p == k.curr_pid) ≡ false
not_current k p h g = elim (Bool-cases (p == k.curr_pid)) [
  | inr e ↦ e
  | inl e ↦
      let same : is_curr (status_of k p) ≡ is_curr (status_of k k.curr_pid) =
        ap (λ q. is_curr (status_of k q)) (==→eq p k.curr_pid e) in
      cc (same, h, g)
]

claimed_apart :
    (k : Kernel) (p : ℕ) → IsSound k → status_of k p ≡ unavail → (p == k.curr_pid) ≡ false
claimed_apart k p v c = not_current k p v.settled.current (rw c refl)

pub Step-IsSound : {y z : System} → Step y z → IsSound y.kernel → IsSound z.kernel
unfolding yield_now mutex_create
Step-IsSound {y} (waits_sem s busy) v = sem_wait-IsSound y.kernel s v busy
Step-IsSound {y} (signals_sem s) v = sem_signal-IsSound y.kernel s v
Step-IsSound {y} (unlocks m) v = mutex_unlock-IsSound y.kernel m v
Step-IsSound {y} (waits_cond c mutex timed delay busy) v =
    entered-IsSound (wait y.kernel c mutex timed delay)
      (wait-IsSound y.kernel c mutex timed delay v busy)
Step-IsSound {y} (resumes mutex busy) v = wait_resume-IsSound y.kernel mutex v busy
Step-IsSound {y} (signals_cond c) v = cond_signal-IsSound y.kernel c v
Step-IsSound {y} (broadcasts c) v = cond_broadcast-IsSound y.kernel c v
Step-IsSound {y} (sleeps_for delay busy) v = sleep-IsSound y.kernel delay v busy
Step-IsSound {y} yields v = sched-IsSound y.kernel v.waits v.settled.is_placed
Step-IsSound {y} (claims p pos small free) v = Woken-IsSound v (
    claim-Woken y.kernel v.waits p v.settled.is_placed
      (not_current y.kernel p v.settled.current (ground (arith, free))) free)
Step-IsSound {y} (allocates_stack size) v = v
Step-IsSound {y} (gives_back p c _) v =
    Woken-IsSound v
      (give_back-Woken y.kernel v.waits p v.settled.is_placed (claimed_apart y.kernel p v c) c)
Step-IsSound {y} (fills p stk priority c _) v =
    Woken-IsSound v (
      occupy-Woken y.kernel v.waits p v.settled.is_placed (claimed_apart y.kernel p v c) c priority)
Step-IsSound {y} (launches p c _) v = Woken-IsSound v (
    make_avail_claimed-Woken y.kernel v.waits p v.settled.is_placed (claimed_apart y.kernel p v c)
      c)
Step-IsSound {y} (makes_sem n fresh) v =
    Woken-IsSound v (sem_create-Woken y.kernel v.waits n v.settled.is_placed fresh)
Step-IsSound {y} (makes_mutex fresh) v =
    Woken-IsSound v (sem_create-Woken y.kernel v.waits 1 v.settled.is_placed fresh)
Step-IsSound {y} makes_cond v =
    Woken-IsSound v (cond_create-Woken y.kernel v.waits v.settled.is_placed)
Step-IsSound {y} (exits busy) v = exit-IsSound y v busy
Step-IsSound {y} ticks v = tick-IsSound y.kernel v.waits v.settled.is_placed
Step-IsSound {y} (interrupts c) v =
    resched-IsSound (cond_signal_isr y.kernel c)
      (Woken-IsSound v (cond_signal_isr-Woken y.kernel v.waits c v.settled.is_placed))
Step-IsSound {y} (nmis c) v = cond_signal_nmi-IsSound y.kernel c v

pub Reach-IsSound : {y z : System} → IsSound y.kernel → Reach y z → IsSound z.kernel
Reach-IsSound v here = v
Reach-IsSound v (next r st) = Step-IsSound st (Reach-IsSound v r)

-- From the first timer tick after a start-up that spawns any processes, and after any sequence of the
-- calls and interrupts of `Step`, with other calls and interrupts between the parts of a `spawn`, no
-- process claiming the row that another is claiming, the null process making no blocking call, and
-- no semaphore being waited for before it is made: each process
-- stands on exactly the ready, semaphore, condition and sleep lists that its status says, once
-- each, and one that is being created on none; the ready, semaphore and condition lists are ordered
-- by priority; each semaphore's count agrees with its queue; the null
-- process is ready or running; the current process, and no other, is marked as running; and no
-- ready process outranks the current one unless a reschedule is due.
pub history-IsSound :
    {y z : System}
    → Boots y
    → Reach (at_kernel y (handle_cpu_timer_intr y.kernel)) z
    → IsSound z.kernel
history-IsSound b r =
    let v = Boots-IsStarting b in Reach-IsSound (tick-IsSound _ v.waits v.placed) r
