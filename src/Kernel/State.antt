-- ===== src/Kernel/State.antt =====
-- The kernel's tables: src/include/proc.h, and the statics of src/system/sem.c, src/system/cond.c,
-- src/system/sleep.c and src/system/make_avail.c.
use teatime_os.Base.{ℕ, Bool, true, false, List, if◌then◌else◌, ◌==◌}
use teatime_os.Kernel.Queue.{Entry}

pub data Status : Type 0 where
  unused unavail avail curr cond_wait sem_wait timed_wait : Status

abbrev pub is_unused : Status → Bool
is_unused unused = true
is_unused _ = false

abbrev pub is_avail : Status → Bool
is_avail avail = true
is_avail _ = false

abbrev pub is_curr : Status → Bool
is_curr curr = true
is_curr _ = false

abbrev pub is_cond_wait : Status → Bool
is_cond_wait cond_wait = true
is_cond_wait _ = false

abbrev pub is_sem_wait : Status → Bool
is_sem_wait sem_wait = true
is_sem_wait _ = false

abbrev pub is_timed_wait : Status → Bool
is_timed_wait timed_wait = true
is_timed_wait _ = false

-- A priority is a key of the queues, so it is a C int in offset binary too.
pub record Proc : Type 0 where
  pub status : Status
  pub priority : ℕ
  pub timed_out : Bool

-- A semaphore's count, a C int that stays far from its bounds: `owed n` is -(n + 1).
pub data Count : Type 0 where
  free : ℕ → Count
  owed : ℕ → Count

pub record Sem : Type 0 where
  pub count : Count
  pub queue : List Entry
  pub used : Bool

pub record Cond : Type 0 where
  pub queue : List Entry
  pub pending : Bool
  pub used : Bool

pub record Sleeper : Type 0 where
  pub pid : ℕ
  pub wake_at : ℕ

pub record Kernel : Type 0 where
  pub proctab : ℕ → Proc
  pub curr_pid : ℕ
  pub need_resched : Bool
  pub avail_list : List Entry
  pub semtab : ℕ → Sem
  pub condtab : ℕ → Cond
  pub nmi_pending : Bool
  pub sleep_list : List Sleeper
  pub tick_count : ℕ
  pub tick_in_sec : ℕ
  pub clktime : ℕ

abbrev pub update {ℓ} : {A : Type ℓ} → (ℕ → A) → ℕ → A → ℕ → A
update f p v q = if p == q then v else f q

abbrev pub status_of : Kernel → ℕ → Status
status_of k p = (k.proctab p).status

abbrev pub priority_of : Kernel → ℕ → ℕ
priority_of k p = (k.proctab p).priority

abbrev pub set_status : Kernel → ℕ → Status → Kernel
set_status k p s = record k { proctab = update k.proctab p (record (k.proctab p) { status = s }) }

abbrev pub set_timed_out : Kernel → ℕ → Bool → Kernel
set_timed_out k p b = record k {
  proctab = update k.proctab p (record (k.proctab p) { timed_out = b });
}

abbrev pub set_sem : Kernel → ℕ → Sem → Kernel
set_sem k s v = record k { semtab = update k.semtab s v }

abbrev pub set_cond : Kernel → ℕ → Cond → Kernel
set_cond k c v = record k { condtab = update k.condtab c v }
