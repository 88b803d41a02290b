-- ===== src/Kernel/Process/Boot.antt =====
-- The start-up of src/system/start.c, which spawns processes before the timer runs.
use teatime_os.Base.{
  ℕ, ap, ◌∙◌, some, none, ==→eq, ◌≡◌, refl, sym, subst, true, false, Option, arith, ◌==◌, inl, inr,
  Bool-cases,
}
use teatime_os.Kernel.Queue.{enqueue}
use teatime_os.Kernel.State.{Kernel, is_unused, unavail, status_of, set_status}
use teatime_os.Kernel.Placed.{Waits, IsPlaced}
use teatime_os.Kernel.Sched.{make_avail}
use teatime_os.Kernel.Wake.{Woken}
use teatime_os.Kernel.Process.{
  System, find_pid, claim, get_pid, occupy, with_stack, create_as, create, launch, spawn, started,
}
use teatime_os.Kernel.Process.Spawning.{
  FoundPid, find_pid_lem, claim-Woken, give_back-Woken, status-occupy, occupy-Woken,
  make_avail_claimed-Woken,
}
use teatime_os.Kernel.Process.Steps.{at_kernel}
use teatime_os.Alloc.{Heap, alloc_stack}

-- The kernel as the start-up code leaves it, with the processes that it spawns.
pub data Boots : System → Type 0 where
  starts : (y : System) → y.kernel ≡ started → Boots y
  spawned : {y : System} (stack_size priority : ℕ) → Boots y → Boots (spawn y stack_size priority).0

pub record IsStarting (k : Kernel) : Type 0 where
  pub waits : Waits
  pub placed : IsPlaced k waits
  pub busy : is_unused (status_of k k.curr_pid) ≡ false

pub no_waits : Waits
no_waits = record { sem_of = λ _. 0; cond_of = λ _. 0 }

pub started-IsPlaced : IsPlaced started no_waits
unfolding started enqueue make_avail no_waits
started-IsPlaced = record {
  placed = record {
    avail = record { holds = λ p. ground arith; once = (refl, tt); sorted = (tt, tt) };
    keyed = (refl, tt);
    sems = λ s. record { holds = λ p. ground arith; once = tt; sorted = tt };
    balanced = λ s. refl;
    conds = λ c. record { holds = λ p. ground arith; once = tt; sorted = tt };
    sleepers = record { holds = λ p. ground arith; once = tt };
  };
  running = λ p h. ground arith;
  null_ready = refl;
}

starting : (k : Kernel) → k ≡ started → IsStarting k
unfolding started make_avail
starting k e =
    subst IsStarting (sym e) (record { waits = no_waits; placed = started-IsPlaced; busy = refl })

IsStarting-Woken : {k k' : Kernel} → (v : IsStarting k) → Woken k k' → IsStarting k'
IsStarting-Woken v u = record { waits = u.waits; placed = u.placed; busy = u.busy v.busy }

-- A spawn that nothing comes between, as during the start-up.
with_stack-IsStarting :
    (y : System) (x priority : ℕ) (r : Heap × Option ℕ)
    → IsStarting y.kernel
    → status_of y.kernel x ≡ unavail
    → (x == y.kernel.curr_pid) ≡ false
    → IsStarting (launch (with_stack y y.kernel x priority r)).0.kernel
unfolding with_stack
with_stack-IsStarting y x priority (h, none) v c apart =
    IsStarting-Woken v (give_back-Woken y.kernel v.waits x v.placed apart c)
with_stack-IsStarting y x priority (h, some stk) v c apart =
    let u = IsStarting-Woken v (occupy-Woken y.kernel v.waits x v.placed apart c priority) in
    IsStarting-Woken u (
      make_avail_claimed-Woken (occupy y.kernel x priority) u.waits x u.placed apart
        (ap (λ f. f x) (status-occupy y.kernel v.waits x v.placed apart c priority) ∙ c))

create_as-IsStarting :
    (y : System) (stack_size priority : ℕ) (o : Option ℕ)
    → IsStarting y.kernel
    → FoundPid y.kernel 1 10 o
    → IsStarting (launch (create_as y stack_size priority (claim y.kernel o))).0.kernel
unfolding create_as claim with_stack
create_as-IsStarting y stack_size priority none v f = v
create_as-IsStarting y stack_size priority (some x) v f =
    let apart : (x == y.kernel.curr_pid) ≡ false = other x f.2 in
    let k = set_status y.kernel x unavail in
    let u = IsStarting-Woken v (claim-Woken y.kernel v.waits x v.placed apart f.2) in
    with_stack-IsStarting (at_kernel y k) x priority (alloc_stack y.heap stack_size) u
      (ground arith) apart
  where
    other : (x : ℕ) → is_unused (status_of y.kernel x) ≡ true → (x == y.kernel.curr_pid) ≡ false
    other x h = elim (Bool-cases (x == y.kernel.curr_pid)) [
      | inr e ↦ e
      | inl e ↦
          let same = ap (λ q. is_unused (status_of y.kernel q)) (==→eq x y.kernel.curr_pid e) in
          cc (same, h, v.busy)
    ]

spawn-IsStarting :
    (y : System) (stack_size priority : ℕ)
    → IsStarting y.kernel
    → IsStarting (spawn y stack_size priority).0.kernel
unfolding spawn create get_pid
spawn-IsStarting y stack_size priority v =
    create_as-IsStarting y stack_size priority (find_pid 9 1 y.kernel) v (find_pid_lem y.kernel)

pub Boots-IsStarting : {y : System} → Boots y → IsStarting y.kernel
Boots-IsStarting (starts y e) = starting y.kernel e
Boots-IsStarting (spawned {y} stack_size priority b) =
    spawn-IsStarting y stack_size priority (Boots-IsStarting b)
