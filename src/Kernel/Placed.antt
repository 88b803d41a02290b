-- ===== src/Kernel/Placed.antt =====
-- The kernel's invariant: a process stands on the lists that its status says, and on no others.

use teatime_os.Base.{
  ℕ, suc, ◌≡◌, ap, ◌∙◌, Bool, true, false, not, ◌&&◌, ◌||◌, List, [], ◌∷◌, ◌==◌, All, length, arith,
}
use teatime_os.Kernel.Queue.{
  Entry, has, Once, IsSorted, enqueue, remove, has-enqueue, enqueue-Once, enqueue-IsSorted,
  has-remove, remove-Once, remove-IsSorted,
}
use teatime_os.Kernel.State.{
  Kernel, Status, Sem, Cond, Count, Sleeper, is_avail, is_curr, is_sem_wait, is_cond_wait,
  is_timed_wait, status_of, priority_of,
}

-- A queue that holds just the processes of `f`, each once, by falling keys.
pub record QueueOk (f : ℕ → Bool) (q : List Entry) : Type 0 where
  pub holds : (p : ℕ) → has p q ≡ f p
  pub once : Once q
  pub sorted : IsSorted q

abbrev pub sleeps : ℕ → List Sleeper → Bool
sleeps p [] = false
sleeps p (e ∷ l) = (e.pid == p) || sleeps p l

abbrev pub SleepOnce : List Sleeper → Type 0
SleepOnce [] = Unit
SleepOnce (e ∷ l) = (sleeps e.pid l ≡ false) × SleepOnce l

pub record SleepOk (f : ℕ → Bool) (l : List Sleeper) : Type 0 where
  pub holds : (p : ℕ) → sleeps p l ≡ f p
  pub once : SleepOnce l

-- What a process that waits waits for: semaphore s as s + 1, condition c as c + 1, and 0 for none.
pub record Waits : Type 0 where
  pub sem_of : ℕ → ℕ
  pub cond_of : ℕ → ℕ

-- A semaphore below zero has that many processes on its queue, and otherwise none.
abbrev pub Balanced : Count → List Entry → Type 0
Balanced (Count.free n) q = q ≡ []
Balanced (Count.owed n) q = length q ≡ suc n

abbrev pub Keyed : (ℕ → ℕ) → List Entry → Type 0
Keyed prio = All λ (e : Entry). e.key ≡ prio e.pid

abbrev pub on_sem : Status → ℕ → ℕ → Bool
on_sem st at s = is_sem_wait st && (at == suc s)

abbrev pub on_cond : Status → ℕ → ℕ → Bool
on_cond st at c = (is_cond_wait st || is_timed_wait st) && (at == suc c)

-- The ready list, the semaphores, the conditions and the sleep list are as the statuses say.
pub record Placed (st : ℕ → Status) (w : Waits) (prio : ℕ → ℕ) (ready : List Entry)
    (semtab : ℕ → Sem) (condtab : ℕ → Cond) (sleep_list : List Sleeper) : Type 0 where
  pub avail : QueueOk (λ p. is_avail (st p)) ready
  pub keyed : Keyed prio ready
  pub sems : (s : ℕ) → QueueOk (λ p. on_sem (st p) (w.sem_of p) s) (semtab s).queue
  pub balanced : (s : ℕ) → Balanced (semtab s).count (semtab s).queue
  pub conds : (c : ℕ) → QueueOk (λ p. on_cond (st p) (w.cond_of p) c) (condtab c).queue
  pub sleepers : SleepOk (λ p. is_timed_wait (st p)) sleep_list

abbrev pub PlacedIn : (ℕ → Status) → Waits → Kernel → Type 0
PlacedIn st w k = Placed st w (priority_of k) k.avail_list k.semtab k.condtab k.sleep_list

-- Every status is right, only the current process can be running, and the null process never waits.
pub record IsPlaced (k : Kernel) (w : Waits) : Type 0 where
  pub placed : PlacedIn (status_of k) w k
  pub running : (p : ℕ) → is_curr (status_of k p) ≡ true → p ≡ k.curr_pid
  pub null_ready : (is_avail (status_of k 0) || is_curr (status_of k 0)) ≡ true

-- Between two calls the current process is marked as such.
pub record IsSettled (k : Kernel) (w : Waits) : Type 0 where
  pub is_placed : IsPlaced k w
  pub current : is_curr (status_of k k.curr_pid) ≡ true

pub QueueOk-cong :
    {f g : ℕ → Bool} {q : List Entry} → ((p : ℕ) → f p ≡ g p) → QueueOk f q → QueueOk g q
QueueOk-cong h v = record { holds = λ p. v.holds p ∙ h p; once = v.once; sorted = v.sorted }

pub QueueOk-enqueue :
    (x key : ℕ) {f g : ℕ → Bool} {q : List Entry}
    → QueueOk f q
    → f x ≡ false
    → ((p : ℕ) → ((x == p) || f p) ≡ g p)
    → QueueOk g (enqueue x key q)
QueueOk-enqueue x key {q} v free h = record {
  holds = λ p. has-enqueue p x key q ∙ (ap (λ b. (x == p) || b) (v.holds p) ∙ h p);
  once = enqueue-Once x key q (v.holds x ∙ free) v.once;
  sorted = enqueue-IsSorted x key q v.sorted;
}

pub QueueOk-remove :
    (x : ℕ) {f g : ℕ → Bool} {q : List Entry}
    → QueueOk f q
    → ((p : ℕ) → (not (x == p) && f p) ≡ g p)
    → QueueOk g (remove x q)
QueueOk-remove x {q} v h = record {
  holds = λ p. ground (arith, has-remove p x q v.once, v.holds p, h p);
  once = remove-Once x q v.once;
  sorted = remove-IsSorted x q v.sorted;
}

-- The first process off a queue.
pub QueueOk-tail :
    (e : Entry) {f g : ℕ → Bool} {q : List Entry}
    → QueueOk f (e ∷ q)
    → ((p : ℕ) → (not (e.pid == p) && f p) ≡ g p)
    → QueueOk g q
QueueOk-tail e {q} v h = record {
  holds = λ p. ground (arith, v.once, v.holds p, h p);
  once = v.once.1;
  sorted = v.sorted.1;
}

pub enqueue-Keyed :
    (prio : ℕ → ℕ) (pid key : ℕ) (q : List Entry)
    → key ≡ prio pid
    → Keyed prio q
    → Keyed prio (enqueue pid key q)
unfolding enqueue
enqueue-Keyed prio pid key [] h a = (h, tt)
enqueue-Keyed prio pid key (e ∷ q) h a = ground (arith, enqueue-Keyed prio pid key q h a.1)
