-- ===== src/Kernel/Moves.antt =====
-- Moves of one process between the lists of the kernel, each with the change of its status.

use teatime_os.Base.{
  ℕ, suc, ◌≡◌, refl, subst, Bool, true, false, not, ◌&&◌, ◌||◌, List, ◌∷◌, ◌==◌, arith, inl, inr,
  Bool-cases, ==→eq,
}
use teatime_os.Kernel.Queue.{Entry, enqueue}
use teatime_os.Kernel.SleepList.{SleepOk-cong}
use teatime_os.Kernel.State.{
  Status, Sem, Cond, Count, Sleeper, avail, sem_wait, is_avail, is_sem_wait, is_cond_wait,
  is_timed_wait, update,
}
use teatime_os.Kernel.Placed.{
  QueueOk, Waits, Balanced, on_sem, Placed, QueueOk-cong, QueueOk-enqueue, QueueOk-tail,
  enqueue-Keyed,
}

-- With this status, and these targets of its waits, a process stands on no list.
abbrev pub is_loose : Status → ℕ → ℕ → Bool
is_loose s at_sem at_cond = not (
    is_avail s
    || is_timed_wait s
    || (is_sem_wait s && not (at_sem == 0))
    || (is_cond_wait s && not (at_cond == 0)))

abbrev pub aim_sem : Waits → ℕ → ℕ → Waits
aim_sem w x a = record w { sem_of = update w.sem_of x a }

abbrev pub aim_cond : Waits → ℕ → ℕ → Waits
aim_cond w x b = record w { cond_of = update w.cond_of x b }

module _ {st : ℕ → Status} {w : Waits} {prio : ℕ → ℕ} {ready : List Entry} {semtab : ℕ → Sem}
    {condtab : ℕ → Cond} {sleep_list : List Sleeper}
    (v : Placed st w prio ready semtab condtab sleep_list) where
  -- A process on no list may be given any status, and targets, of that kind.
  pub Placed-loose :
      (x : ℕ) (s : Status) (a b : ℕ)
      → is_loose (st x) (w.sem_of x) (w.cond_of x) ≡ true
      → is_loose s a b ≡ true
      → Placed (update st x s) (aim_sem (aim_cond w x b) x a) prio ready semtab condtab sleep_list
  Placed-loose x s a b h g = record {
    avail = QueueOk-cong (λ p. ground arith) v.avail;
    keyed = v.keyed;
    sems = λ i. QueueOk-cong (λ p. ground arith) (v.sems i);
    balanced = v.balanced;
    conds = λ c. QueueOk-cong (λ p. ground arith) (v.conds c);
    sleepers = record { holds = λ p. ground (arith, v.sleepers.holds p); once = v.sleepers.once };
  }

  pub Placed-to_avail :
      (x : ℕ)
      → is_loose (st x) (w.sem_of x) (w.cond_of x) ≡ true
      → Placed (update st x avail) w prio (enqueue x (prio x) ready) semtab condtab sleep_list
  Placed-to_avail x h = record {
    avail = QueueOk-enqueue x (prio x) v.avail (ground arith) (λ p. ground arith);
    keyed = enqueue-Keyed prio x (prio x) ready refl v.keyed;
    sems = λ i. QueueOk-cong (λ p. ground arith) (v.sems i);
    balanced = v.balanced;
    conds = λ c. QueueOk-cong (λ p. ground arith) (v.conds c);
    sleepers = record { holds = λ p. ground (arith, v.sleepers.holds p); once = v.sleepers.once };
  }

  -- On the queue of a semaphore, with the count that goes with it.
  pub Placed-to_sem :
      (x s : ℕ) (key : ℕ) (count : Count) (used : Bool)
      → is_loose (st x) (w.sem_of x) (w.cond_of x) ≡ true
      → Balanced count (enqueue x key (semtab s).queue)
      → Placed
          (update st x sem_wait)
          (aim_sem w x (suc s))
          prio
          ready
          (update semtab s
            (record { count = count; queue = enqueue x key (semtab s).queue; used = used }))
          condtab
          sleep_list
  Placed-to_sem x s key count used h bal = record {
    avail = QueueOk-cong (λ p. ground arith) v.avail;
    keyed = v.keyed;
    sems = λ i. elim (Bool-cases (s == i)) [
      | inl e ↦
          rw e (QueueOk-enqueue x key (v.sems s) (ground arith) (λ p. ground (arith, ==→eq s i e)))
      | inr e ↦ rw e (QueueOk-cong (λ p. ground arith) (v.sems i))
    ];
    balanced = λ i. elim (Bool-cases (s == i)) [ inl e ↦ rw e bal | inr e ↦ rw e (v.balanced i) ];
    conds = λ c. QueueOk-cong (λ p. ground arith) (v.conds c);
    sleepers = SleepOk-cong (λ p. ground arith) v.sleepers;
  }

  -- The first process off the queue of a semaphore.
  pub Placed-from_sem :
      (s : ℕ) (e : Entry) (q : List Entry) (count : Count) (used : Bool)
      → (semtab s).queue ≡ e ∷ q
      → Balanced count q
      → Placed st
          (aim_sem w e.pid 0)
          prio
          ready
          (update semtab s (record { count = count; queue = q; used = used }))
          condtab
          sleep_list
  Placed-from_sem s e q count used h bal = record {
    avail = v.avail;
    keyed = v.keyed;
    sems = λ i. elim (Bool-cases (s == i)) [
      | inl eq ↦
          rw eq
            (QueueOk-tail e (subst (QueueOk _) h (v.sems s)) (λ p. ground (arith, ==→eq s i eq)))
      | inr ne ↦ rw ne (QueueOk-cong (λ p. ground (arith, other p i ne)) (v.sems i))
    ];
    balanced =
        λ i. elim (Bool-cases (s == i)) [ inl eq ↦ rw eq bal | inr ne ↦ rw ne (v.balanced i) ];
    conds = v.conds;
    sleepers = v.sleepers;
  }
    where
      there : on_sem (st e.pid) (w.sem_of e.pid) s ≡ true
      there = ground (arith, (v.sems s).holds e.pid, h)

      other :
          (p i : ℕ)
          → (s == i) ≡ false
          → on_sem (st p) (update w.sem_of e.pid 0 p) i ≡ on_sem (st p) (w.sem_of p) i
      other p i ne = ground (arith, there)

  -- Another count for a semaphore whose queue stays.
  pub Placed-recount :
      (s : ℕ) (count : Count) (used : Bool)
      → Balanced count (semtab s).queue
      → Placed st w prio ready
          (update semtab s (record { count = count; queue = (semtab s).queue; used = used }))
          condtab
          sleep_list
  Placed-recount s count used bal = record {
    avail = v.avail;
    keyed = v.keyed;
    sems = λ i. elim (Bool-cases (s == i)) [
      | inl e ↦ rw e (QueueOk-cong (λ p. ground (arith, ==→eq s i e)) (v.sems s))
      | inr e ↦ rw e (v.sems i)
    ];
    balanced = λ i. elim (Bool-cases (s == i)) [ inl e ↦ rw e bal | inr e ↦ rw e (v.balanced i) ];
    conds = v.conds;
    sleepers = v.sleepers;
  }
