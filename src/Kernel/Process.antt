-- ===== src/Kernel/Process.antt =====
-- src/system/get_pid.c, src/system/create.c, src/system/start_proc.c, src/system/yield.c,
-- src/system/handle_cputimer_intr.c, and the tables as src/system/start.c sets them up.
pub mod Spawning
pub mod Steps
pub mod Boot
pub mod History
use teatime_os.Base.{
  ℕ, zero, suc, ◌+◌, ◌^◌, Bool, true, false, Option, none, some, [], ◌==◌, if◌then◌else◌, add32,
}
use teatime_os.Alloc.{Heap, alloc_stack, free}
use teatime_os.Kernel.State.{
  Kernel, Proc, Sem, Cond, Count, Status, unused, unavail, curr, is_unused, status_of, update,
  set_status,
}
use teatime_os.Kernel.Sched.{make_avail, sched}
use teatime_os.Kernel.Sleep.{sleep_clock}
use teatime_os.Kernel.Cond.{cond_clock}

-- The kernel's tables with the heap, the stack of each process, and the rows that `create` has filled
-- but `make_avail` has not yet put on the ready list. The code gives such a row PROC_AVAIL already;
-- in `kernel` it stays `unavail` until it is on the list, which no call of the kernel tells apart.
pub record System : Type 0 where
  pub kernel : Kernel
  pub heap : Heap
  pub stk_base : ℕ → ℕ
  pub filled : ℕ → Bool

-- The loop of `get_pid`, with the rounds that are left.
unfoldable pub find_pid : ℕ → ℕ → Kernel → Option ℕ
find_pid zero i k = none
find_pid (suc rounds) i k =
    let later = find_pid rounds (i + 1) k in if is_unused (status_of k i) then some i else later

claim : Kernel → Option ℕ → Kernel × Option ℕ
claim k none = (k, none)
claim k (some i) = (set_status k i unavail, some i)

unfoldable pub get_pid : Kernel → Kernel × Option ℕ
unfolding find_pid claim
get_pid k = claim k (find_pid 9 1 k)

-- The row of a new process. Its stack pointer and saved registers are in the stack's memory.
abbrev pub occupy : Kernel → ℕ → ℕ → Kernel
occupy k pid priority = record k {
  proctab = update k.proctab pid (record (k.proctab pid) { priority = priority });
}

abbrev pub fill : System → ℕ → ℕ → ℕ → System
fill y pid stk priority = record y {
  kernel = occupy y.kernel pid priority;
  stk_base = update y.stk_base pid stk;
  filled = update y.filled pid true;
}

unfoldable pub with_stack : System → Kernel → ℕ → ℕ → Heap × Option ℕ → System × Option ℕ
with_stack y k pid priority (h, none) =
    (record y { kernel = set_status k pid unused; heap = h }, none)
with_stack y k pid priority (h, some stk) =
    (fill (record y { kernel = k; heap = h }) pid stk priority, some pid)

unfoldable pub create_as : System → ℕ → ℕ → Kernel × Option ℕ → System × Option ℕ
unfolding with_stack
create_as y stack_size priority (k, none) = (record y { kernel = k }, none)
create_as y stack_size priority (k, some pid) =
    with_stack y k pid priority (alloc_stack y.heap stack_size)

unfoldable pub create : System → ℕ → ℕ → System × Option ℕ
unfolding create_as get_pid
create y stack_size priority = create_as y stack_size priority (get_pid y.kernel)

abbrev pub launch : System × Option ℕ → System × Option ℕ
launch (y, none) = (y, none)
launch (y, some pid) =
    (record y { kernel = make_avail y.kernel pid; filled = update y.filled pid false }, some pid)

unfoldable pub spawn : System → ℕ → ℕ → System × Option ℕ
unfolding create
spawn y stack_size priority = launch (create y stack_size priority)

-- What `start_proc` does when the function of the current process has returned.
unfoldable pub exit : System → System
exit y =
    let k = y.kernel in
    record y {
      heap = free y.heap (y.stk_base k.curr_pid);
      kernel = sched (set_status k k.curr_pid unused);
    }

unfoldable pub yield_now : Kernel → Kernel
yield_now k = sched k

-- The seconds of the tick counter.
unfoldable pub count_second : Kernel → Kernel
count_second k =
    if k.tick_in_sec + 1 == 1000
    then record k { tick_in_sec = 0; clktime = add32 k.clktime 1 }
    else record k { tick_in_sec = k.tick_in_sec + 1 }

unfoldable pub handle_cpu_timer_intr : Kernel → Kernel
unfolding count_second sleep_clock cond_clock
handle_cpu_timer_intr k = sched (cond_clock (sleep_clock (count_second k)))

-- The null process runs, and every other row is free.
first_row : ℕ → Proc
first_row p = record {
  status = if p == 0 then curr else unused;
  priority = 2 ^ 31;
  timed_out = false;
}

unfoldable pub tables : Kernel
unfolding first_row
tables = record {
  proctab = first_row;
  curr_pid = 0;
  need_resched = false;
  avail_list = [];
  semtab = λ _. record { count = Count.free 0; queue = []; used = false };
  condtab = λ _. record { queue = []; pending = false; used = false };
  nmi_pending = false;
  sleep_list = [];
  tick_count = 0;
  tick_in_sec = 0;
  clktime = 0;
}

-- `make_avail(NULL_PROC)`: the null process runs on, marked as ready.
unfoldable pub started : Kernel
unfolding tables
started = make_avail tables 0
