-- ===== src/Kernel/Parking.antt =====
-- Moves of one process between the ready list, the conditions and the sleep list.
use teatime_os.Base.{
  ℕ, suc, ◌≡◌, subst, Bool, true, ◌||◌, List, ◌∷◌, ◌==◌, arith, inl, inr, Bool-cases, ==→eq,
}
use teatime_os.Kernel.Queue.{Entry, enqueue, remove, remove-absent}
use teatime_os.Kernel.SleepList.{
  SleepOk-cong, SleepOk-insert, SleepOk-delete, sleeper, sleep_insert, sleep_delete,
}
use teatime_os.Kernel.State.{
  Status, Sem, Cond, Sleeper, curr, cond_wait, timed_wait, is_avail, is_cond_wait, is_timed_wait,
  update,
}
use teatime_os.Kernel.Placed.{
  QueueOk, Waits, on_cond, Placed, QueueOk-cong, QueueOk-enqueue, QueueOk-remove, QueueOk-tail,
}
use teatime_os.Kernel.Moves.{is_loose, aim_cond}

-- The first of the ready processes off its list.
pub Placed-from_avail :
    {st : ℕ → Status} {w : Waits} {prio : ℕ → ℕ} {ready : List Entry} {semtab : ℕ → Sem}
    {condtab : ℕ → Cond} {sleep_list : List Sleeper} (e : Entry)
    → Placed st w prio (e ∷ ready) semtab condtab sleep_list
    → Placed (update st e.pid curr) w prio ready semtab condtab sleep_list
Placed-from_avail {st} e v = record {
  avail = QueueOk-tail e v.avail (λ p. ground arith);
  keyed = v.keyed.1;
  sems = λ i. QueueOk-cong (λ p. ground (arith, was)) (v.sems i);
  balanced = v.balanced;
  conds = λ c. QueueOk-cong (λ p. ground (arith, was)) (v.conds c);
  sleepers = SleepOk-cong (λ p. ground (arith, was)) v.sleepers;
}
  where
    was : is_avail (st e.pid) ≡ true
    was = ground (arith, v.avail.holds e.pid)

module _ {st : ℕ → Status} {w : Waits} {prio : ℕ → ℕ} {ready : List Entry} {semtab : ℕ → Sem}
    {condtab : ℕ → Cond} {sleep_list : List Sleeper}
    (v : Placed st w prio ready semtab condtab sleep_list) where
  -- On the queue of a condition, by a process that is marked as waiting.
  pub Placed-to_cond :
      (x c key : ℕ) (pending used : Bool)
      → (is_cond_wait (st x) || is_timed_wait (st x)) ≡ true
      → w.cond_of x ≡ 0
      → Placed st
          (aim_cond w x (suc c))
          prio
          ready
          semtab
          (update condtab c
            (record { queue = enqueue x key (condtab c).queue; pending = pending; used = used }))
          sleep_list
  Placed-to_cond x c key pending used h none = record {
    avail = v.avail;
    keyed = v.keyed;
    sems = v.sems;
    balanced = v.balanced;
    conds = λ i. elim (Bool-cases (c == i)) [
      | inl e ↦
          rw e (QueueOk-enqueue x key (v.conds c) (ground arith) (λ p. ground (arith, ==→eq c i e)))
      | inr e ↦ rw e (QueueOk-cong (λ p. ground arith) (v.conds i))
    ];
    sleepers = v.sleepers;
  }

  -- The first process off the queue of a condition; its status still says that it waits.
  pub Placed-from_cond :
      (c : ℕ) (e : Entry) (q : List Entry) (pending used : Bool)
      → (condtab c).queue ≡ e ∷ q
      → Placed st
          (aim_cond w e.pid 0)
          prio
          ready
          semtab
          (update condtab c (record { queue = q; pending = pending; used = used }))
          sleep_list
  Placed-from_cond c e q pending used h = record {
    avail = v.avail;
    keyed = v.keyed;
    sems = v.sems;
    balanced = v.balanced;
    conds = λ i. elim (Bool-cases (c == i)) [
      | inl eq ↦
          rw eq
            (QueueOk-tail e (subst (QueueOk _) h (v.conds c)) (λ p. ground (arith, ==→eq c i eq)))
      | inr ne ↦ rw ne (QueueOk-cong (λ p. ground (arith, there)) (v.conds i))
    ];
    sleepers = v.sleepers;
  }
    where
      there : on_cond (st e.pid) (w.cond_of e.pid) c ≡ true
      there = ground (arith, (v.conds c).holds e.pid, h)

  -- Off whatever queue it stands on, for a process whose wait has timed out.
  pub Placed-remove :
      (x : ℕ)
      → is_timed_wait (st x) ≡ true
      → Placed st
          (aim_cond w x 0)
          prio
          (remove x ready)
          (λ s. record (semtab s) { queue = remove x (semtab s).queue })
          (λ c. record (condtab c) { queue = remove x (condtab c).queue })
          sleep_list
  Placed-remove x h = record {
    avail = QueueOk-remove x v.avail (λ p. ground arith);
    keyed = rw (remove-absent x ready (ground (arith, v.avail.holds x))) v.keyed;
    sems = λ i. QueueOk-remove x (v.sems i) (λ p. ground arith);
    balanced = λ s.
        rw (remove-absent x (semtab s).queue (ground (arith, (v.sems s).holds x))) (v.balanced s);
    conds = λ i. QueueOk-remove x (v.conds i) (λ p. ground arith);
    sleepers = v.sleepers;
  }

  pub Placed-to_sleep :
      (x wake_at : ℕ)
      → is_loose (st x) (w.sem_of x) (w.cond_of x) ≡ true
      → w.cond_of x ≡ 0
      → Placed
          (update st x timed_wait)
          w
          prio
          ready
          semtab
          condtab
          (sleep_insert (sleeper x wake_at) sleep_list)
  Placed-to_sleep x wake_at h none = record {
    avail = QueueOk-cong (λ p. ground arith) v.avail;
    keyed = v.keyed;
    sems = λ i. QueueOk-cong (λ p. ground arith) (v.sems i);
    balanced = v.balanced;
    conds = λ i. QueueOk-cong (λ p. ground arith) (v.conds i);
    sleepers = SleepOk-insert (sleeper x wake_at) v.sleepers (ground arith) (λ p. ground arith);
  }

  -- Off the sleep list: what is left is a wait for the condition alone.
  pub Placed-from_sleep :
      (x : ℕ)
      → is_timed_wait (st x) ≡ true
      → Placed (update st x cond_wait) w prio ready semtab condtab (sleep_delete x sleep_list)
  Placed-from_sleep x h = record {
    avail = QueueOk-cong (λ p. ground arith) v.avail;
    keyed = v.keyed;
    sems = λ i. QueueOk-cong (λ p. ground arith) (v.sems i);
    balanced = v.balanced;
    conds = λ i. QueueOk-cong (λ p. ground arith) (v.conds i);
    sleepers = SleepOk-delete x v.sleepers (λ p. ground arith);
  }

  -- Another flag for a condition whose queue stays.
  pub Placed-flag :
      (c : ℕ) (pending used : Bool)
      → Placed st w prio ready semtab
          (update condtab c (record { queue = (condtab c).queue; pending = pending; used = used }))
          sleep_list
  Placed-flag c pending used = record {
    avail = v.avail;
    keyed = v.keyed;
    sems = v.sems;
    balanced = v.balanced;
    conds = λ i. elim (Bool-cases (c == i)) [
      | inl e ↦ rw e (QueueOk-cong (λ p. ground (arith, ==→eq c i e)) (v.conds c))
      | inr e ↦ rw e (v.conds i)
    ];
    sleepers = v.sleepers;
  }
