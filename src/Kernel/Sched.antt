-- ===== src/Kernel/Sched.antt =====
-- src/system/make_avail.c, src/system/sched.c.
use teatime_os.Base.{ℕ, true, false, List, [], ◌∷◌, ltb, if◌then◌else◌}
use teatime_os.Kernel.Queue.{Entry, enqueue}
use teatime_os.Kernel.State.{Kernel, avail, curr, is_curr, status_of, priority_of, set_status}

unfoldable pub make_avail : Kernel → ℕ → Kernel
unfolding enqueue
make_avail k pid =
    let k' = set_status k pid avail in
    record k' {
      avail_list = enqueue pid (priority_of k' pid) k'.avail_list;
      need_resched =
          if ltb (priority_of k' k'.curr_pid) (priority_of k' pid) then true else k'.need_resched;
    }

-- A queue's first process and what is left; an empty queue yields the null process.
unfoldable pub dequeue : List Entry → ℕ × List Entry
dequeue [] = (0, [])
dequeue (e ∷ q) = (e.pid, q)

-- The current process goes back on the ready list, unless it has been parked.
unfoldable pub requeue : Kernel → Kernel
unfolding enqueue
requeue k =
    if is_curr (status_of k k.curr_pid)
    then (let k' = set_status k k.curr_pid avail in
        record k' { avail_list = enqueue k'.curr_pid (priority_of k' k'.curr_pid) k'.avail_list })
    else k

unfoldable pub dispatch : Kernel → ℕ × List Entry → Kernel
dispatch k (pid, rest) = set_status (record k { curr_pid = pid; avail_list = rest }) pid curr

-- After the sweep of the canaries. The context switch is the change of `curr_pid`.
unfoldable pub sched : Kernel → Kernel
unfolding requeue dispatch dequeue
sched k =
    let k' = requeue (record k { need_resched = false }) in dispatch k' (dequeue k'.avail_list)
