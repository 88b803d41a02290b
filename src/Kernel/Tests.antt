-- ===== src/Kernel/Tests.antt =====
-- Runs of the kernel, and its theorems at concrete states.
use teatime_os.Base.{◌+◌, ◌^◌, ◌≡◌, ◌≢◌, refl}
use teatime_os.Alloc.{initmem, alloc_stack}
use teatime_os.Kernel.State.{Kernel, is_unused, unavail, status_of, set_status}
use teatime_os.Kernel.Placed.{IsSettled}
use teatime_os.Kernel.Scheduling.{Outranks, sched-IsSettled}
use teatime_os.Kernel.Sched.{sched, make_avail}
use teatime_os.Kernel.Sem.{sem_wait}
use teatime_os.Kernel.Wake.{IsSound}
use teatime_os.Kernel.Process.{System, started, spawn, handle_cpu_timer_intr}
use teatime_os.Kernel.Process.Boot.{Boots, starts, spawned, no_waits, started-IsPlaced}
use teatime_os.Kernel.Process.Steps.{claims, waits_sem, ticks, here, next}
use teatime_os.Kernel.Process.History.{history-IsSound}
use teatime_os.Base.{
  ◌<◌, ◌==◌, ◌||◌, if◌then◌else◌, ◌-◌, true, false, ℕ, arith, none, some, List, [], ◌∷◌,
}
use teatime_os.Kernel.Queue.{Entry, entry, has, enqueue}
use teatime_os.Kernel.Links.{Links, new_queue, proc_enqueue}
use teatime_os.Kernel.Links.Chain.{IsQueue}
use teatime_os.Kernel.Links.Operations.{OthersStay, new_queue-IsQueue, proc_enqueue-IsQueue}

abbrev bare : System
bare = record {
  kernel = started;
  heap = initmem 4096 65536 (λ _. 0);
  stk_base = λ _. 0;
  filled = λ _. false;
}

abbrev booted : System
booted = (spawn (spawn bare 2048 (2 ^ 31 + 5)).0 4096 (2 ^ 31 + 10)).0

booted-Boots : Boots booted
booted-Boots = spawned 4096 (2 ^ 31 + 10) (spawned 2048 (2 ^ 31 + 5) (starts bare refl))

abbrev running : Kernel
running = handle_cpu_timer_intr booted.kernel

-- The second process outranks the first and the null process.
running_run : running.curr_pid ≡ 2
unfolding handle_cpu_timer_intr spawn started sched make_avail initmem alloc_stack
running_run = refl

running-IsBusy : running.curr_pid ≢ 0
unfolding handle_cpu_timer_intr spawn started sched make_avail initmem alloc_stack
running-IsBusy h = cc h

third_free : is_unused (status_of running 3) ≡ true
unfolding handle_cpu_timer_intr spawn started sched make_avail initmem alloc_stack
third_free = refl

-- A process claims a row, waits, and a tick comes before it has created its process.
history-IsSound_example :
    IsSound (handle_cpu_timer_intr (sem_wait (set_status running 3 unavail) 0))
history-IsSound_example = history-IsSound booted-Boots (
    next
      (next (next here (claims 3 (omega arith) (omega arith) third_free))
        (waits_sem 0 running-IsBusy))
      ticks)

sched-IsSettled_example : IsSettled (sched started) no_waits × Outranks (sched started)
sched-IsSettled_example = sched-IsSettled started no_waits started-IsPlaced

abbrev blank_links : Links
blank_links = record {
  key = λ _. 0;
  pid = λ _. 0;
  prev = λ _. none;
  next = λ _. none;
  curr_queue_id = 10;
}

abbrev one_queue : Links
one_queue = (new_queue blank_links).0

one_queue-IsQueue :
    ((new_queue blank_links).1 ≡ some 10)
    × IsQueue one_queue 10 [] 11
    × ((h' : ℕ) (q' : List Entry) (t' : ℕ)
        → ((x : ℕ) → ((x == h') || (x == t') || has x q') ≡ true → x < 10)
        → IsQueue blank_links h' q' t'
        → IsQueue one_queue h' q' t')
one_queue-IsQueue = new_queue-IsQueue blank_links (omega arith)

proc_enqueue-IsQueue_example :
    (l' : Links) × (proc_enqueue 9 one_queue 10 3 2147483653 ≡ some l')
    × IsQueue l' 10 (enqueue 3 2147483653 []) 11
    × OthersStay one_queue l' 3 10 [] 11
proc_enqueue-IsQueue_example =
    proc_enqueue-IsQueue 9 one_queue 10 11 3 2147483653 [] one_queue-IsQueue.1 tt refl refl refl
      (omega arith) (omega arith) (omega arith)

-- A table whose queue from 10 to 11 holds the processes 3 and 4.
abbrev two_waiting : Links
two_waiting = record {
  key = λ x. if x == 10 then 2 ^ 32 - 1 else if x == 3 then 9 else if x == 4 then 7 else 0;
  pid = λ x. x;
  prev =
      λ x. if x == 3 then some 10 else if x == 4 then some 3 else if x == 11 then some 4 else none;
  next =
      λ x. if x == 10 then some 3 else if x == 3 then some 4 else if x == 4 then some 11 else none;
  curr_queue_id = 12;
}

abbrev waiting_two : List Entry
waiting_two = entry 3 9 ∷ entry 4 7 ∷ []

two_waiting-IsQueue : IsQueue two_waiting 10 waiting_two 11
two_waiting-IsQueue = record {
  chain = (refl, refl, refl, refl, (refl, refl, refl, refl, (refl, refl)));
  head_key = refl;
  tail_key = refl;
  last = refl;
  no_head = refl;
  no_tail = refl;
  ends = refl;
}
