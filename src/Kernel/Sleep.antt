-- ===== src/Kernel/Sleep.antt =====
-- src/system/sleep.c: timed waits.
pub mod Soundness
use teatime_os.Base.{ℕ, ◌+◌, ◌%◌, ◌^◌, Bool, true, false, List, [], ◌∷◌, if◌then◌else◌, add32}
use teatime_os.Kernel.Queue.{Entry, remove}
use teatime_os.Kernel.State.{Kernel, Sleeper, timed_wait, set_status, set_timed_out}
use teatime_os.Kernel.SleepList.{sleeper, at_or_before, sleep_insert, sleep_delete}
use teatime_os.Kernel.Sched.{make_avail, sched}

unfoldable pub sleep_enqueue : Kernel → ℕ → ℕ → Kernel
unfolding sleep_insert
sleep_enqueue k pid delay = record k {
  sleep_list = sleep_insert (sleeper pid (add32 k.tick_count delay)) k.sleep_list;
}

unfoldable pub sleep_remove : Kernel → ℕ → Kernel
unfolding sleep_delete
sleep_remove k pid = record k { sleep_list = sleep_delete pid k.sleep_list }

unfoldable pub sleep : Kernel → ℕ → Kernel
unfolding sleep_enqueue
sleep k delay = sched (sleep_enqueue (set_status k k.curr_pid timed_wait) k.curr_pid delay)

unfoldable pub ticks : Kernel → ℕ
ticks k = k.tick_count

-- A process leaves the one queue that its entry is linked into, if there is one.
unfoldable pub proc_remove : Kernel → ℕ → Kernel
unfolding remove
proc_remove k pid = record k {
  avail_list = remove pid k.avail_list;
  semtab = λ s. record (k.semtab s) { queue = remove pid (k.semtab s).queue };
  condtab = λ c. record (k.condtab c) { queue = remove pid (k.condtab c).queue };
}

unfoldable pub time_out : Kernel → ℕ → Kernel
unfolding proc_remove
time_out k pid = make_avail (set_timed_out (proc_remove k pid) pid true) pid

-- The loop of `sleep_clock`, over the sleep list `l` of `k`.
unfoldable pub wake_due : List Sleeper → Kernel → Kernel
unfolding time_out
wake_due [] k = k
wake_due (e ∷ l) k =
    let rest = wake_due l (time_out (record k { sleep_list = l }) e.pid) in
    if at_or_before e.wake_at k.tick_count then rest else k

unfoldable pub sleep_clock : Kernel → Kernel
unfolding wake_due
sleep_clock k = wake_due k.sleep_list (record k { tick_count = add32 k.tick_count 1 })
