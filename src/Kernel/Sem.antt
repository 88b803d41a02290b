-- ===== src/Kernel/Sem.antt =====
-- src/system/sem.c: counting semaphores and mutexes.
pub mod Soundness
pub mod Creation
use teatime_os.Base.{
  ℕ, zero, suc, ◌+◌, ◌-◌, Bool, true, false, Option, none, some, List, if◌then◌else◌,
}
use teatime_os.Kernel.Queue.{Entry, enqueue}
use teatime_os.Kernel.State.{Kernel, Count, Sem, set_status, set_sem, priority_of, Status}
use teatime_os.Kernel.Sched.{make_avail, dequeue, sched}
use teatime_os.Kernel.Wake.{resched}

unfoldable pub decrement : Count → Count
decrement (Count.free zero) = Count.owed 0
decrement (Count.free (suc n)) = Count.free n
decrement (Count.owed n) = Count.owed (suc n)

unfoldable pub increment : Count → Count
increment (Count.free n) = Count.free (suc n)
increment (Count.owed zero) = Count.free 0
increment (Count.owed (suc n)) = Count.owed n

-- count < 0, count <= 0 and count < 1.
abbrev pub is_negative : Count → Bool
is_negative (Count.free n) = false
is_negative (Count.owed n) = true

abbrev pub is_positive : Count → Bool
is_positive (Count.free zero) = false
is_positive (Count.free (suc n)) = true
is_positive (Count.owed n) = false

-- The loop over `semtab`, with the rounds that are left.
find_unused : ℕ → ℕ → (ℕ → Sem) → Option ℕ
find_unused zero i semtab = none
find_unused (suc rounds) i semtab =
    let later = find_unused rounds (i + 1) semtab in if (semtab i).used then later else some i

create_at : Kernel → Count → Option ℕ → Kernel × Option ℕ
create_at k initial none = (k, none)
create_at k initial (some i) =
    (set_sem k i (record (k.semtab i) { count = initial; used = true }), some i)

unfoldable pub sem_create : Kernel → Count → Kernel × Option ℕ
unfolding find_unused create_at
sem_create k initial = create_at k initial (find_unused 16 0 k.semtab)

park_sem : Kernel → ℕ → Kernel
unfolding enqueue
park_sem k s =
    let k' = set_status k k.curr_pid Status.sem_wait in
    set_sem k' s (record (k'.semtab s) {
      queue = enqueue k'.curr_pid (priority_of k' k'.curr_pid) (k'.semtab s).queue;
    })

unfoldable pub sem_wait : Kernel → ℕ → Kernel
unfolding decrement park_sem
sem_wait k s =
    let left = decrement (k.semtab s).count in
    let k' = set_sem k s (record (k.semtab s) { count = left }) in
    if is_negative left then sched (park_sem k' s) else k'

wake_sem : Kernel → ℕ → ℕ × List Entry → Kernel
wake_sem k s (pid, rest) = make_avail (set_sem k s (record (k.semtab s) { queue = rest })) pid

-- The part of `sem_signal` in front of the reschedule.
unfoldable pub signal : Kernel → ℕ → Kernel
unfolding increment wake_sem dequeue
signal k s =
    let more = increment (k.semtab s).count in
    let k' = set_sem k s (record (k.semtab s) { count = more }) in
    if is_positive more then k' else wake_sem k' s (dequeue (k.semtab s).queue)

unfoldable pub sem_signal : Kernel → ℕ → Kernel
unfolding signal resched
sem_signal k s = resched (signal k s)

unfoldable pub sem_count : Kernel → ℕ → Count
sem_count k s = (k.semtab s).count

unfoldable pub mutex_create : Kernel → Kernel × Option ℕ
unfolding sem_create
mutex_create k = sem_create k (Count.free 1)

unfoldable pub mutex_lock : Kernel → ℕ → Kernel
mutex_lock k m = sem_wait k m

unfoldable pub mutex_unlock : Kernel → ℕ → Kernel
unfolding sem_count
mutex_unlock k m = if is_positive (sem_count k m) then k else sem_signal k m
