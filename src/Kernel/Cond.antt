-- ===== src/Kernel/Cond.antt =====
-- src/system/cond.c: condition variables.
pub mod Soundness
pub mod Creation
pub mod Waiting
use teatime_os.Base.{
  ℕ, zero, suc, ◌+◌, Bool, true, false, not, ◌&&◌, Option, none, some, List, [], ◌∷◌, ◌==◌,
  if◌then◌else◌,
}
use teatime_os.Kernel.Queue.{Entry, enqueue}
use teatime_os.Kernel.State.{
  Kernel, Cond, Status, is_curr, is_timed_wait, status_of, priority_of, set_status, set_timed_out,
  set_cond,
}
use teatime_os.Kernel.Sched.{make_avail, dequeue, sched}
use teatime_os.Kernel.Wake.{resched}
use teatime_os.Kernel.Sem.{mutex_lock, mutex_unlock}
use teatime_os.Kernel.Sleep.{sleep_enqueue, sleep_remove}

find_unused : ℕ → ℕ → (ℕ → Cond) → Option ℕ
find_unused zero i condtab = none
find_unused (suc rounds) i condtab =
    let later = find_unused rounds (i + 1) condtab in if (condtab i).used then later else some i

create_at : Kernel → Option ℕ → Kernel × Option ℕ
create_at k none = (k, none)
create_at k (some i) =
    (set_cond k i (record (k.condtab i) { used = true; pending = false }), some i)

unfoldable pub cond_create : Kernel → Kernel × Option ℕ
unfolding find_unused create_at
cond_create k = create_at k (find_unused 16 0 k.condtab)

unfoldable pub wake : Kernel → ℕ → Kernel
unfolding sleep_remove
wake k pid = make_avail (if is_timed_wait (status_of k pid) then sleep_remove k pid else k) pid

-- The loop of `wake_all`, over the queue `q` of condition `c`.
unfoldable pub wake_queue : List Entry → Kernel → ℕ → Kernel
unfolding wake
wake_queue [] k c = k
wake_queue (e ∷ q) k c =
    let k' = set_cond k c (record (k.condtab c) { queue = q }) in
    let rest = wake_queue q (wake k' e.pid) c in if e.pid == 0 then k' else rest

unfoldable pub wake_all : Kernel → ℕ → Kernel
unfolding wake_queue
wake_all k c = wake_queue (k.condtab c).queue k c

-- The current process marked as waiting, on the sleep list if its wait is timed.
mark : Kernel → Bool → ℕ → Kernel
unfolding sleep_enqueue
mark k timed delay =
    let k' = set_timed_out k k.curr_pid false in
    if timed
    then sleep_enqueue (set_status k' k'.curr_pid Status.timed_wait) k'.curr_pid delay
    else set_status k' k'.curr_pid Status.cond_wait

park_cond : Kernel → ℕ → Bool → ℕ → Kernel
unfolding mark enqueue
park_cond k c timed delay =
    let k' = mark k timed delay in
    set_cond k' c (record (k'.condtab c) {
      queue = enqueue k'.curr_pid (priority_of k' k'.curr_pid) (k'.condtab c).queue;
    })

unlock_given : Kernel → Option ℕ → Kernel
unfolding mutex_unlock
unlock_given k none = k
unlock_given k (some m) = mutex_unlock k m

lock_given : Kernel → Option ℕ → Kernel
unfolding mutex_lock
lock_given k none = k
lock_given k (some m) = mutex_lock k m

-- `wait` up to the context switch. `mutex` is `none` for MUTEX_NONE. A signal that is pending is
-- taken, and the call returns 0 at once.
pub data Entered : Type 0 where
  returned : Kernel → Entered
  switched : Kernel → Entered

unfoldable pub wait : Kernel → ℕ → Option ℕ → Bool → ℕ → Entered
unfolding park_cond unlock_given
wait k c mutex timed delay =
    let k' = unlock_given (park_cond k c timed delay) mutex in
    if (k.condtab c).pending
    then returned (set_cond k c (record (k.condtab c) { pending = false }))
    else switched (if is_curr (status_of k' k'.curr_pid) then k' else sched k')

-- The rest of `wait`, when the process runs again: whether the wait timed out, and the lock.
unfoldable pub wait_resume : Kernel → Option ℕ → Kernel × Bool
unfolding lock_given
wait_resume k mutex = (lock_given k mutex, (k.proctab k.curr_pid).timed_out)

unfoldable pub cond_wait : Kernel → ℕ → Option ℕ → Entered
unfolding wait
cond_wait k c mutex = wait k c mutex false 0

unfoldable pub cond_timedwait : Kernel → ℕ → Option ℕ → ℕ → Entered
unfolding wait
cond_timedwait k c mutex delay = wait k c mutex true delay

signal_first : Kernel → ℕ → ℕ × List Entry → Kernel
unfolding wake
signal_first k c (pid, rest) =
    let k' = set_cond k c (record (k.condtab c) { queue = rest }) in
    if pid == 0 then k' else wake k' pid

unfoldable pub cond_signal : Kernel → ℕ → Kernel
unfolding signal_first dequeue resched
cond_signal k c = resched (signal_first k c (dequeue (k.condtab c).queue))

unfoldable pub cond_broadcast : Kernel → ℕ → Kernel
unfolding wake_all resched
cond_broadcast k c = resched (wake_all k c)

abbrev pub set_pending : Kernel → ℕ → Bool → Kernel
set_pending k c b = set_cond k c (record (k.condtab c) { pending = b })

unfoldable pub cond_signal_isr : Kernel → ℕ → Kernel
unfolding wake_all
cond_signal_isr k c = wake_all (set_pending k c true) c

unfoldable pub cond_signal_nmi : Kernel → ℕ → Kernel
cond_signal_nmi k c = record (set_pending k c true) { nmi_pending = true }

is_empty : List Entry → Bool
is_empty [] = true
is_empty (e ∷ q) = false

deliver : Kernel → ℕ → Kernel
unfolding wake_all is_empty
deliver k c =
    if (k.condtab c).pending && not (is_empty (k.condtab c).queue)
    then set_pending (wake_all k c) c false
    else k

-- The loop of `cond_clock`, with the rounds that are left.
deliver_all : ℕ → ℕ → Kernel → Kernel
unfolding deliver
deliver_all zero c k = k
deliver_all (suc rounds) c k = deliver_all rounds (c + 1) (deliver k c)

unfoldable pub cond_clock : Kernel → Kernel
unfolding deliver_all
cond_clock k = if k.nmi_pending then deliver_all 16 0 (record k { nmi_pending = false }) else k
