-- ===== src/Kernel/Cond/Soundness.antt =====
-- The condition variables of src/system/cond.c keep the kernel sound.
use teatime_os.Base.{
  ℕ, zero, suc, ◌+◌, ◌≡◌, refl, subst, Bool, true, false, not, ◌&&◌, ◌||◌, List, [], ◌∷◌, ◌==◌,
  arith, inl, inr, Bool-cases,
}
use teatime_os.Kernel.Queue.{Entry}
use teatime_os.Kernel.State.{Kernel, Status, is_timed_wait, is_cond_wait, status_of, set_cond}
use teatime_os.Kernel.Placed.{Waits, IsPlaced}
use teatime_os.Kernel.Moves.{aim_cond}
use teatime_os.Kernel.Parking.{Placed-from_sleep, Placed-from_cond, Placed-flag}
use teatime_os.Kernel.Sched.{make_avail, dequeue}
use teatime_os.Kernel.Wake.{
  IsSound, Woken, Woken-trans, Woken-from, Woken-refl, Woken-IsSound, make_avail-Woken,
  resched-IsSound, update_self,
}
use teatime_os.Kernel.Sleep.{sleep_remove}
use teatime_os.Kernel.Cond.{
  wake, wake_queue, wake_all, signal_first, cond_signal, cond_broadcast, cond_signal_isr,
  cond_signal_nmi, set_pending, deliver, deliver_all, cond_clock, is_empty,
}

pub flag-IsPlaced :
    (k : Kernel) (w : Waits) (c : ℕ) (pending used : Bool)
    → IsPlaced k w
    → IsPlaced (set_cond k c (record (k.condtab c) { pending = pending; used = used })) w
flag-IsPlaced k w c pending used v = record {
  placed = Placed-flag v.placed c pending used;
  running = v.running;
  null_ready = v.null_ready;
}

module _ (k : Kernel) (w : Waits) (c : ℕ) (v : IsPlaced k w) (e : Entry) (q : List Entry)
    (at : (k.condtab c).queue ≡ e ∷ q) where
  abbrev gone : Kernel
  gone = set_cond k c (record (k.condtab c) { queue = q })

  gone-IsPlaced : IsPlaced gone (aim_cond w e.pid 0)
  gone-IsPlaced = record {
    placed = Placed-from_cond v.placed c e q (k.condtab c).pending (k.condtab c).used at;
    running = v.running;
    null_ready = v.null_ready;
  }

  waits_here : (is_cond_wait (status_of k e.pid) || is_timed_wait (status_of k e.pid)) ≡ true
  waits_here = ground (arith, (v.placed.conds c).holds e.pid, at)

  -- The first process of a condition's queue is woken, and taken off the sleep list too.
  wake-Woken : Woken k (wake gone e.pid)
  unfolding wake sleep_remove
  wake-Woken = elim (Bool-cases (is_timed_wait (status_of k e.pid))) [
    | inl timed ↦ rw timed (
        Woken-from {k = k} refl refl refl refl (
          make_avail-Woken (sleep_remove gone e.pid) (aim_cond w e.pid 0) e.pid Status.cond_wait
            (record {
              placed = Placed-from_sleep gone-IsPlaced.placed e.pid timed;
              loose = ground arith;
              waits = ground (arith, timed);
              running = v.running;
              null_ready = v.null_ready;
            })))
    | inr plain ↦ rw plain (
        Woken-from {k = k} refl refl refl refl (
          make_avail-Woken gone (aim_cond w e.pid 0) e.pid (status_of k e.pid) (record {
            placed = rw (update_self (status_of k) e.pid) gone-IsPlaced.placed;
            loose = ground (arith, waits_here, plain);
            waits = ground (arith, waits_here, plain);
            running = v.running;
            null_ready = v.null_ready;
          })))
  ]

  queue-wake : ((wake gone e.pid).condtab c).queue ≡ q
  unfolding wake make_avail sleep_remove
  queue-wake = ground arith

wake_queue-Woken :
    (q : List Entry) (k : Kernel) (w : Waits) (c : ℕ)
    → IsPlaced k w
    → (k.condtab c).queue ≡ q
    → Woken k (wake_queue q k c)
unfolding wake_queue
wake_queue-Woken [] k w c v at = Woken-refl k w v
wake_queue-Woken (e ∷ q) k w c v at = elim (Bool-cases (e.pid == 0)) [
  | inl null ↦ rw null (
      Woken-from {k = k} refl refl refl refl
        (Woken-refl (gone k w c v e q at) (aim_cond w e.pid 0) (gone-IsPlaced k w c v e q at)))
  | inr live ↦
      let first = wake-Woken k w c v e q at in
      rw live (
        Woken-trans first (
          wake_queue-Woken q (wake (gone k w c v e q at) e.pid) first.waits c first.placed
            (queue-wake k w c v e q at)))
]

pub wake_all-Woken : (k : Kernel) (w : Waits) (c : ℕ) → IsPlaced k w → Woken k (wake_all k c)
unfolding wake_all
wake_all-Woken k w c v = wake_queue-Woken (k.condtab c).queue k w c v refl

pub cond_broadcast-IsSound : (k : Kernel) (c : ℕ) → IsSound k → IsSound (cond_broadcast k c)
unfolding cond_broadcast
cond_broadcast-IsSound k c v =
    resched-IsSound (wake_all k c)
      (Woken-IsSound v (wake_all-Woken k v.waits c v.settled.is_placed))

signal_first-Woken :
    (k : Kernel) (w : Waits) (c : ℕ) (q : List Entry)
    → IsPlaced k w
    → (k.condtab c).queue ≡ q
    → Woken k (signal_first k c (dequeue q))
unfolding signal_first dequeue
signal_first-Woken k w c [] v at = Woken-from {k = k} refl refl refl refl (
    Woken-refl (set_cond k c (record (k.condtab c) { queue = [] })) w (
      subst (λ l. IsPlaced (set_cond k c (record (k.condtab c) { queue = l })) w) at
        (flag-IsPlaced k w c (k.condtab c).pending (k.condtab c).used v)))
signal_first-Woken k w c (e ∷ q) v at = elim (Bool-cases (e.pid == 0)) [
  | inl null ↦ rw null (
      Woken-from {k = k} refl refl refl refl
        (Woken-refl (gone k w c v e q at) (aim_cond w e.pid 0) (gone-IsPlaced k w c v e q at)))
  | inr live ↦ rw live (wake-Woken k w c v e q at)
]

pub cond_signal-IsSound : (k : Kernel) (c : ℕ) → IsSound k → IsSound (cond_signal k c)
unfolding cond_signal
cond_signal-IsSound k c v =
    resched-IsSound (signal_first k c (dequeue (k.condtab c).queue)) (
      Woken-IsSound v (signal_first-Woken k v.waits c (k.condtab c).queue v.settled.is_placed refl))

pub set_pending-Woken :
    (k : Kernel) (w : Waits) (c : ℕ) (b : Bool) → IsPlaced k w → Woken k (set_pending k c b)
set_pending-Woken k w c b v =
    Woken-from {k = k} refl refl refl refl
      (Woken-refl (set_pending k c b) w (flag-IsPlaced k w c b (k.condtab c).used v))

pub cond_signal_isr-Woken :
    (k : Kernel) (w : Waits) (c : ℕ) → IsPlaced k w → Woken k (cond_signal_isr k c)
unfolding cond_signal_isr
cond_signal_isr-Woken k w c v =
    Woken-trans (set_pending-Woken k w c true v)
      (wake_all-Woken (set_pending k c true) w c (flag-IsPlaced k w c true (k.condtab c).used v))

pub cond_signal_nmi-IsSound : (k : Kernel) (c : ℕ) → IsSound k → IsSound (cond_signal_nmi k c)
unfolding cond_signal_nmi
cond_signal_nmi-IsSound k c v =
    let p = flag-IsPlaced k v.waits c true (k.condtab c).used v.settled.is_placed in
    record {
      waits = v.waits;
      settled = record {
        is_placed = record { placed = p.placed; running = p.running; null_ready = p.null_ready };
        current = v.settled.current;
      };
      preempts = v.preempts;
    }

deliver-Woken : (k : Kernel) (w : Waits) (c : ℕ) → IsPlaced k w → Woken k (deliver k c)
unfolding deliver
deliver-Woken k w c v =
    elim (Bool-cases ((k.condtab c).pending && not (is_empty (k.condtab c).queue))) [
      | inl e ↦
          let first = wake_all-Woken k w c v in
          rw e
            (Woken-trans first (set_pending-Woken (wake_all k c) first.waits c false first.placed))
      | inr e ↦ rw e (Woken-refl k w v)
    ]

deliver_all-Woken :
    (rounds c : ℕ) (k : Kernel) (w : Waits) → IsPlaced k w → Woken k (deliver_all rounds c k)
unfolding deliver_all
deliver_all-Woken zero c k w v = Woken-refl k w v
deliver_all-Woken (suc rounds) c k w v =
    let first = deliver-Woken k w c v in
    Woken-trans first (deliver_all-Woken rounds (c + 1) (deliver k c) first.waits first.placed)

pub cond_clock-Woken : (k : Kernel) (w : Waits) → IsPlaced k w → Woken k (cond_clock k)
unfolding cond_clock
cond_clock-Woken k w v = elim (Bool-cases k.nmi_pending) [
  | inl e ↦ simp e (
      Woken-from {k = k} refl refl refl refl (
        deliver_all-Woken 16 0 (record k { nmi_pending = false }) w
          (record { placed = v.placed; running = v.running; null_ready = v.null_ready })))
  | inr e ↦ simp e (Woken-refl k w v)
]
