-- ===== src/Kernel/Scheduling.antt =====
-- `make_avail` and `sched` keep the invariant, and `sched` runs a ready process of highest priority.
use mathlib.Core.Path.{fun_ext}
use teatime_os.Base.{
  ℕ, ◌≡◌, ◌≤◌, refl, sym, subst, true, false, List, [], ◌∷◌, ◌==◌, arith, inl, inr, Bool-cases,
  ==→eq, All,
}
use teatime_os.Kernel.Queue.{Entry, has}
use teatime_os.Kernel.State.{
  Kernel, Status, avail, curr, is_curr, is_avail, update, status_of, priority_of, set_status,
}
use teatime_os.Kernel.Placed.{Waits, Keyed, PlacedIn, IsPlaced, IsSettled}
use teatime_os.Kernel.Moves.{is_loose, Placed-to_avail}
use teatime_os.Kernel.Parking.{Placed-from_avail}
use teatime_os.Kernel.Sched.{make_avail, dequeue, requeue, dispatch, sched}

pub status-set_status :
    (k : Kernel) (x : ℕ) (s : Status) → status_of (set_status k x s) ≡ update (status_of k) x s
status-set_status k x s = fun_ext λ p. ground arith

pub priority-set_status :
    (k : Kernel) (x : ℕ) (s : Status) → priority_of (set_status k x s) ≡ priority_of k
priority-set_status k x s = fun_ext λ p. ground arith

-- The lists are as they were, and a status is written.
pub PlacedIn-set_status :
    (k : Kernel) (w : Waits) (x : ℕ) (s : Status)
    → PlacedIn (update (status_of k) x s) w k
    → PlacedIn (status_of (set_status k x s)) w (set_status k x s)
PlacedIn-set_status k w x s v = rw (status-set_status k x s, priority-set_status k x s) v

pub make_avail-PlacedIn :
    (st : ℕ → Status) (w : Waits) (k : Kernel) (x : ℕ)
    → PlacedIn st w k
    → is_loose (st x) (w.sem_of x) (w.cond_of x) ≡ true
    → PlacedIn (update st x avail) w (make_avail k x)
unfolding make_avail
make_avail-PlacedIn st w k x v h = rw (priority-set_status k x avail) (Placed-to_avail v x h)

pub status-make_avail :
    (k : Kernel) (x : ℕ) → status_of (make_avail k x) ≡ update (status_of k) x avail
unfolding make_avail
status-make_avail k x = status-set_status k x avail

pub current-make_avail : (k : Kernel) (x : ℕ) → (make_avail k x).curr_pid ≡ k.curr_pid
unfolding make_avail
current-make_avail k x = refl

-- No ready process has a higher priority than the current one.
abbrev pub Outranks : Kernel → Type 0
Outranks k = (p : ℕ) → is_avail (status_of k p) ≡ true → priority_of k p ≤ priority_of k k.curr_pid

priority-le :
    (prio : ℕ → ℕ) (n p : ℕ) (q : List Entry)
    → All (λ (f : Entry). f.key ≤ n) q
    → Keyed prio q
    → has p q ≡ true
    → prio p ≤ n
priority-le prio n p [] a k h = cc
priority-le prio n p (e ∷ q) a k h = elim (Bool-cases (e.pid == p)) [
  | inl eq ↦ rw (sym (==→eq e.pid p eq)) (omega (arith, a.0, k.0))
  | inr ne ↦ priority-le prio n p q a.1 k.1 (rw ne at h)
]

-- A kernel in which the current process has been put away.
record IsIdle (k : Kernel) (w : Waits) : Type 0 where
  placed : PlacedIn (status_of k) w k
  none_runs : (p : ℕ) → is_curr (status_of k p) ≡ false
  null_ready : is_avail (status_of k 0) ≡ true

dispatch_list :
    (k : Kernel) (w : Waits) (l : List Entry)
    → IsIdle (record k { avail_list = l }) w
    → IsSettled (dispatch k (dequeue l)) w × Outranks (dispatch k (dequeue l))
unfolding dispatch dequeue
dispatch_list k w [] v = cc (v.placed.avail.holds 0, v.null_ready)
dispatch_list k w (e ∷ q) v = (
  record {
    is_placed = record {
      placed =
          PlacedIn-set_status (record k { avail_list = q }) w e.pid curr
            (Placed-from_avail e v.placed);
      running = λ p h. ground (arith, v.none_runs p);
      null_ready = ground (arith, v.null_ready);
    };
    current = ground arith;
  },
  λ p h.
      let still : has p q ≡ true = ground (arith, v.placed.avail.holds p) in
      let below : priority_of k p ≤ e.key =
        priority-le (priority_of k) e.key p q v.placed.avail.sorted.0 v.placed.keyed.1 still in
      subst (λ (f : ℕ → ℕ). f p ≤ f e.pid) (sym (priority-set_status k e.pid curr))
        (omega (arith, below, v.placed.keyed.0)),
)

requeue-IsIdle : (k : Kernel) (w : Waits) → IsPlaced k w → IsIdle (requeue k) w
unfolding requeue
requeue-IsIdle k w v = elim (Bool-cases (is_curr (status_of k k.curr_pid))) [
  | inl e ↦ rw e (record {
    placed =
        rw (status-set_status k k.curr_pid avail, priority-set_status k k.curr_pid avail)
          (Placed-to_avail v.placed k.curr_pid (ground arith));
    none_runs = λ p. ground (arith, v.running p);
    null_ready = ground (arith, v.null_ready, v.running 0);
  })
  | inr e ↦ rw e (record {
    placed = v.placed;
    none_runs = λ p. ground (arith, v.running p);
    null_ready = ground (arith, v.null_ready, v.running 0);
  })
]

-- In a kernel whose lists agree with the statuses, `sched` keeps them so, marks the process that it
-- switches to as running, and no ready process has a higher priority than that process.
pub sched-IsSettled :
    (k : Kernel) (w : Waits) → IsPlaced k w → IsSettled (sched k) w × Outranks (sched k)
unfolding sched
sched-IsSettled k w v =
    let k0 : Kernel = requeue (record k { need_resched = false }) in
    dispatch_list k0 w k0.avail_list (
      requeue-IsIdle (record k { need_resched = false }) w
        (record { placed = v.placed; running = v.running; null_ready = v.null_ready }))
