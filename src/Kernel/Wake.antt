-- ===== src/Kernel/Wake.antt =====
-- Waking a process, and the preemption that follows from it.
use mathlib.Core.Path.{fun_ext}
use teatime_os.Base.{
  ℕ, ◌≡◌, ◌≤◌, refl, sym, ap, subst, ◌∙◌, true, false, ◌||◌, ◌==◌, arith, if◌then◌else◌, inl, inr,
  Bool-cases, ==→eq,
}
use teatime_os.Kernel.State.{
  Kernel, Status, avail, is_curr, is_avail, is_unused, update, status_of, priority_of, set_status,
}
use teatime_os.Kernel.Placed.{Waits, PlacedIn, IsPlaced, IsSettled}
use teatime_os.Kernel.Moves.{is_loose}
use teatime_os.Kernel.Sched.{make_avail, sched}
use teatime_os.Kernel.Scheduling.{
  current-make_avail, make_avail-PlacedIn, priority-set_status, status-set_status, Outranks,
  sched-IsSettled,
}

-- The kernel between two calls: every list is right, and if a ready process outranks the current
-- one, a reschedule is due.
pub record IsSound (k : Kernel) : Type 0 where
  pub waits : Waits
  pub settled : IsSettled k waits
  pub preempts : k.need_resched ≡ false → Outranks k

-- `k'` is what `k` becomes when some processes are woken: the current one stays.
pub record Woken (k k' : Kernel) : Type 0 where
  pub waits : Waits
  pub placed : IsPlaced k' waits
  pub same : k'.curr_pid ≡ k.curr_pid
  pub marked : is_curr (status_of k' k'.curr_pid) ≡ is_curr (status_of k k.curr_pid)
  pub busy :
      is_unused (status_of k k.curr_pid) ≡ false → is_unused (status_of k' k'.curr_pid) ≡ false
  pub preempts : (k.need_resched ≡ false → Outranks k) → k'.need_resched ≡ false → Outranks k'

pub Woken-trans : {k l m : Kernel} → Woken k l → Woken l m → Woken k m
Woken-trans v u = record {
  waits = u.waits;
  placed = u.placed;
  same = u.same ∙ v.same;
  marked = u.marked ∙ v.marked;
  busy = λ h. u.busy (v.busy h);
  preempts = λ h. u.preempts (v.preempts h);
}

pub update-update :
    (st : ℕ → Status) (x : ℕ) (s t : Status) → update (update st x s) x t ≡ update st x t
update-update st x s t = fun_ext λ p. ground arith

pub update_self : (st : ℕ → Status) (x : ℕ) → update st x (st x) ≡ st
update_self st x =
    fun_ext λ p. elim (Bool-cases (x == p)) [ inl e ↦ rw e (ap st (==→eq x p e)) | inr e ↦ rw e ]

-- What is known of a kernel that has just taken `x`, which waited, off its lists.
pub record IsLifted (k : Kernel) (w : Waits) (x : ℕ) (s : Status) : Type 0 where
  pub placed : PlacedIn (update (status_of k) x s) w k
  pub loose : is_loose s (w.sem_of x) (w.cond_of x) ≡ true
  pub waits : is_curr (status_of k x) ≡ false
  pub running : (p : ℕ) → is_curr (status_of k p) ≡ true → p ≡ k.curr_pid
  pub null_ready : (is_avail (status_of k 0) || is_curr (status_of k 0)) ≡ true

pub make_avail-preempts :
    (k : Kernel) (x : ℕ)
    → (k.need_resched ≡ false → Outranks k)
    → (make_avail k x).need_resched ≡ false
    → Outranks (make_avail k x)
unfolding make_avail
make_avail-preempts k x h quiet p ready =
    let same : (q : ℕ) → priority_of (set_status k x avail) q ≡ priority_of k q =
      λ q. ap (λ f. f q) (priority-set_status k x avail) in
    let quiet' : k.need_resched ≡ false = ground arith in
    elim (Bool-cases (x == p)) [
      | inl e ↦ ground (arith, same p, same x, same k.curr_pid, ==→eq x p e)
      | inr e ↦
          rw (same p, same k.curr_pid)
            (h quiet' p (ground (arith, ap (λ f. f p) (status-set_status k x avail))))
    ]

make_avail-IsPlaced :
    (k : Kernel) (w : Waits) (x : ℕ) (s : Status) → IsLifted k w x s → IsPlaced (make_avail k x) w
unfolding make_avail
make_avail-IsPlaced k w x s v = record {
  placed =
      rw (status-set_status k x avail, sym (update-update (status_of k) x s avail))
        (make_avail-PlacedIn (update (status_of k) x s) w k x v.placed (ground (arith, v.loose)));
  running = λ p h. ground (arith, v.running p, v.waits);
  null_ready = ground (arith, v.null_ready);
}

make_avail-marked :
    (k : Kernel) (x : ℕ)
    → is_curr (status_of k x) ≡ false
    → is_curr (status_of (make_avail k x) k.curr_pid) ≡ is_curr (status_of k k.curr_pid)
unfolding make_avail
make_avail-marked k x h = ground arith

make_avail-busy :
    (k : Kernel) (x : ℕ)
    → is_unused (status_of k k.curr_pid) ≡ false
    → is_unused (status_of (make_avail k x) k.curr_pid) ≡ false
unfolding make_avail
make_avail-busy k x h = ground arith

-- A process that is woken becomes ready; if it outranks the current one, a reschedule is due.
pub make_avail-Woken :
    (k : Kernel) (w : Waits) (x : ℕ) (s : Status) → IsLifted k w x s → Woken k (make_avail k x)
make_avail-Woken k w x s v = record {
  waits = w;
  placed = make_avail-IsPlaced k w x s v;
  same = current-make_avail k x;
  marked = rw (current-make_avail k x) (make_avail-marked k x v.waits);
  busy = λ h. rw (current-make_avail k x) (make_avail-busy k x h);
  preempts = make_avail-preempts k x;
}

-- `if (need_resched) sched();`, as most calls end.
unfoldable pub resched : Kernel → Kernel
resched k = if k.need_resched then sched k else k

pub sched-IsSound : (k : Kernel) (w : Waits) → IsPlaced k w → IsSound (sched k)
sched-IsSound k w v = record {
  waits = w;
  settled = (sched-IsSettled k w v).0;
  preempts = λ _. (sched-IsSettled k w v).1;
}

pub Woken-IsSound : {k k' : Kernel} → IsSound k → Woken k k' → IsSound k'
Woken-IsSound v u = record {
  waits = u.waits;
  settled = record { is_placed = u.placed; current = u.marked ∙ v.settled.current };
  preempts = u.preempts v.preempts;
}

pub resched-IsSound : (k : Kernel) → IsSound k → IsSound (resched k)
unfolding resched
resched-IsSound k v = elim (Bool-cases k.need_resched) [
  | inl e ↦ simp e (sched-IsSound k v.waits v.settled.is_placed)
  | inr e ↦ simp e v
]

-- A change of the lists alone in front of the waking.
pub Woken-from :
    {k l m : Kernel}
    → status_of l ≡ status_of k
    → priority_of l ≡ priority_of k
    → l.curr_pid ≡ k.curr_pid
    → l.need_resched ≡ k.need_resched
    → Woken l m
    → Woken k m
Woken-from {k} {l} s p c r u = record {
  waits = u.waits;
  placed = u.placed;
  same = u.same ∙ c;
  marked = u.marked ∙ (λ i. is_curr (s i (c i)));
  busy = λ h. u.busy ((λ i. is_unused (s i (c i))) ∙ h);
  preempts = λ h. u.preempts (λ quiet q ready.
      subst (λ (f : ℕ → ℕ). f q ≤ f l.curr_pid) (sym p)
        (subst (λ (n : ℕ). priority_of k q ≤ priority_of k n) (sym c)
          (h (sym r ∙ quiet) q (subst (λ (f : ℕ → Status). is_avail (f q) ≡ true) s ready))));
}

pub Woken-refl : (k : Kernel) (w : Waits) → IsPlaced k w → Woken k k
Woken-refl k w v = record {
  waits = w;
  placed = v;
  same = refl;
  marked = refl;
  busy = λ h. h;
  preempts = λ h. h;
}
