-- ===== src/Kernel/Process/Steps.antt =====
-- The steps of the kernel: calls of the running process, and interrupts.
use teatime_os.Base.{
  ℕ, ◌<◌, ap, some, none, ◌≡◌, ◌≢◌, refl, sym, subst, Bool, true, false, Option, arith,
}
use teatime_os.Kernel.State.{Kernel, Count, is_unused, unused, unavail, status_of, set_status}
use teatime_os.Kernel.Wake.{resched}
use teatime_os.Kernel.Sem.{sem_wait, sem_signal, mutex_unlock, sem_create, mutex_create}
use teatime_os.Kernel.Sleep.{sleep}
use teatime_os.Kernel.Cond.{
  Entered, cond_create, wait, wait_resume, cond_signal, cond_broadcast, cond_signal_isr,
  cond_signal_nmi,
}
use teatime_os.Kernel.Process.{
  System, find_pid, claim, get_pid, fill, with_stack, create_as, create, launch, spawn, exit,
  yield_now, handle_cpu_timer_intr,
}
use teatime_os.Kernel.Process.Spawning.{FoundPid, find_pid_lem}
use teatime_os.Alloc.{Heap, alloc_stack}
use teatime_os.Kernel.Sem.Creation.{AreFresh}

abbrev pub entered : Entered → Kernel
entered (Entered.returned k) = k
entered (Entered.switched k) = k

abbrev pub at_kernel : System → Kernel → System
at_kernel y k = record y { kernel = k }

-- One call by the current process, or one interrupt. The null process makes no call that blocks.
-- `spawn` masks no interrupt but in `make_avail`, so it is the steps from `claims` to `launches`, with
-- any others in between: `get_pid` marks a row that is unused, `alloc_stack` is called, and the row is
-- given back, or filled and then launched. As a step, `get_pid` finds the row that it marks still
-- unused: no other `get_pid` marks the row between the test and the mark.
pub data Step (y : System) : System → Type 0 where
  waits_sem : (s : ℕ) → y.kernel.curr_pid ≢ 0 → Step y (at_kernel y (sem_wait y.kernel s))
  signals_sem : (s : ℕ) → Step y (at_kernel y (sem_signal y.kernel s))
  unlocks : (m : ℕ) → Step y (at_kernel y (mutex_unlock y.kernel m))
  waits_cond :
      (c : ℕ) (mutex : Option ℕ) (timed : Bool) (delay : ℕ)
      → y.kernel.curr_pid ≢ 0
      → Step y (at_kernel y (entered (wait y.kernel c mutex timed delay)))
  resumes :
      (mutex : Option ℕ)
      → y.kernel.curr_pid ≢ 0
      → Step y (at_kernel y (wait_resume y.kernel mutex).0)
  signals_cond : (c : ℕ) → Step y (at_kernel y (cond_signal y.kernel c))
  broadcasts : (c : ℕ) → Step y (at_kernel y (cond_broadcast y.kernel c))
  sleeps_for : (delay : ℕ) → y.kernel.curr_pid ≢ 0 → Step y (at_kernel y (sleep y.kernel delay))
  yields : Step y (at_kernel y (yield_now y.kernel))
  claims :
      (p : ℕ)
      → 0 < p
      → p < 10
      → is_unused (status_of y.kernel p) ≡ true
      → Step y (at_kernel y (set_status y.kernel p unavail))
  allocates_stack : (size : ℕ) → Step y (record y { heap = (alloc_stack y.heap size).0 })
  gives_back :
      (p : ℕ)
      → status_of y.kernel p ≡ unavail
      → y.filled p ≡ false
      → Step y (at_kernel y (set_status y.kernel p unused))
  fills :
      (p stk priority : ℕ)
      → status_of y.kernel p ≡ unavail
      → y.filled p ≡ false
      → Step y (fill y p stk priority)
  launches :
      (p : ℕ) → status_of y.kernel p ≡ unavail → y.filled p ≡ true → Step y (launch (y, some p)).0
  makes_sem :
      (n : ℕ)
      → AreFresh y.kernel.semtab
      → Step y (at_kernel y (sem_create y.kernel (Count.free n)).0)
  makes_mutex : AreFresh y.kernel.semtab → Step y (at_kernel y (mutex_create y.kernel).0)
  makes_cond : Step y (at_kernel y (cond_create y.kernel).0)
  exits : y.kernel.curr_pid ≢ 0 → Step y (exit y)
  ticks : Step y (at_kernel y (handle_cpu_timer_intr y.kernel))
  interrupts : (c : ℕ) → Step y (at_kernel y (resched (cond_signal_isr y.kernel c)))
  nmis : (c : ℕ) → Step y (at_kernel y (cond_signal_nmi y.kernel c))

pub data Reach (y : System) : System → Type 0 where
  here : Reach y y
  next : {u z : System} → Reach y u → Step u z → Reach y z

-- What is filled is claimed.
abbrev pub AreClaimed : System → Type 0
AreClaimed y = (p : ℕ) → is_unused (status_of y.kernel p) ≡ true → y.filled p ≡ false

with_stack-Reach :
    (y : System) (size priority x : ℕ) (r : Heap × Option ℕ)
    → r ≡ alloc_stack y.heap size
    → 0 < x
    → x < 10
    → is_unused (status_of y.kernel x) ≡ true
    → y.filled x ≡ false
    → Reach y (launch (with_stack y (set_status y.kernel x unavail) x priority r)).0
unfolding with_stack
with_stack-Reach y size priority x (h, none) e pos small free empty =
    subst
      (λ g.
        Reach y
          (record y { kernel = set_status (set_status y.kernel x unavail) x unused; heap = g }))
      (sym (ap (λ (r : Heap × Option ℕ). r.0) e))
      (next (next (next here (claims x pos small free)) (allocates_stack size))
        (gives_back x (ground arith) empty))
with_stack-Reach y size priority x (h, some stk) e pos small free empty =
    subst
      (λ g.
        Reach y
          (launch (
            fill (record y { kernel = set_status y.kernel x unavail; heap = g }) x stk priority,
            some x,
          )).0)
      (sym (ap (λ (r : Heap × Option ℕ). r.0) e))
      (next
        (next (next (next here (claims x pos small free)) (allocates_stack size))
          (fills x stk priority (ground arith) empty))
        (launches x (ground arith) (ground arith)))

-- A `spawn` that nothing comes between is such a sequence of steps.
pub spawn-Reach :
    (y : System) (stack_size priority : ℕ) → AreClaimed y → Reach y (spawn y stack_size priority).0
unfolding spawn create get_pid create_as claim
spawn-Reach y stack_size priority v = found (find_pid 9 1 y.kernel) (find_pid_lem y.kernel)
  where
    found :
        (o : Option ℕ)
        → FoundPid y.kernel 1 10 o
        → Reach y (launch (create_as y stack_size priority (claim y.kernel o))).0
    found none f = here
    found (some x) f =
        with_stack-Reach y stack_size priority x (alloc_stack y.heap stack_size) refl f.0 f.1 f.2
          (v x f.2)
