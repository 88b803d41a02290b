-- ===== src/Kernel/Process/Spawning.antt =====
-- `create` and `spawn` of src/system/create.c, and the end of a process in src/system/start_proc.c.
use mathlib.Core.Path.{fun_ext}
use teatime_os.Base.{
  ℕ, zero, suc, ◌+◌, ◌≤◌, ◌<◌, ◌≡◌, ◌≢◌, refl, sym, ap, ◌||◌, subst, ◌∙◌, true, false, List, [],
  ◌∷◌, ◌==◌, arith, inl, inr, Bool-cases, ==→eq, Option, some, none,
}
use teatime_os.Kernel.Queue.{Entry, has}
use teatime_os.Kernel.State.{
  Kernel, Status, unused, unavail, is_unused, is_curr, is_avail, status_of, priority_of, set_status,
}
use teatime_os.Kernel.Placed.{Waits, PlacedIn, IsPlaced, Keyed}
use teatime_os.Kernel.Moves.{is_loose, aim_cond, aim_sem, Placed-loose}
use teatime_os.Kernel.Sched.{make_avail}
use teatime_os.Kernel.Scheduling.{PlacedIn-set_status}
use teatime_os.Kernel.Wake.{IsSound, Woken, update_self, make_avail-Woken, sched-IsSound}
use teatime_os.Kernel.Process.{System, find_pid, occupy, exit}

-- `get_pid` finds the lowest unused row from 1 on, if there is one below NUM_PROC.
abbrev pub FoundPid : Kernel → ℕ → ℕ → Option ℕ → Type 0
FoundPid k i end none = (j : ℕ) → i ≤ j → j < end → is_unused (status_of k j) ≡ false
FoundPid k i end (some p) =
    (i ≤ p)
    × (p < end)
    × (is_unused (status_of k p) ≡ true)
    × ((j : ℕ) → i ≤ j → j < p → is_unused (status_of k j) ≡ false)

find_pid-FoundPid : (rounds i : ℕ) (k : Kernel) → FoundPid k i (i + rounds) (find_pid rounds i k)
unfolding find_pid
find_pid-FoundPid zero i k = λ j lo hi. absurd (omega arith)
find_pid-FoundPid (suc rounds) i k = elim (Bool-cases (is_unused (status_of k i))) [
  | inl e ↦ rw e (omega arith, omega arith, e, λ j lo hi. absurd (omega arith))
  | inr e ↦ rw e (further (find_pid rounds (i + 1) k) (find_pid-FoundPid rounds (i + 1) k) e)
]
  where
    further :
        (o : Option ℕ)
        → FoundPid k (i + 1) (i + 1 + rounds) o
        → is_unused (status_of k i) ≡ false
        → FoundPid k i (i + suc rounds) o
    further none f e = λ j lo hi. elim (Bool-cases (i == j)) [
      | inl eq ↦ subst (λ n. is_unused (status_of k n) ≡ false) (==→eq i j eq) e
      | inr ne ↦ f j (ground arith) (omega arith)
    ]
    further (some p) f e = (
      omega arith,
      omega arith,
      f.2,
      λ j lo hi. elim (Bool-cases (i == j)) [
        | inl eq ↦ subst (λ n. is_unused (status_of k n) ≡ false) (==→eq i j eq) e
        | inr ne ↦ f.3 j (ground arith) hi
      ],
    )

-- A process that stands on no list gets another such status.
set_status-Woken :
    (k : Kernel) (w : Waits) (x : ℕ) (s : Status)
    → IsPlaced k w
    → is_loose (status_of k x) (w.sem_of x) (w.cond_of x) ≡ true
    → is_curr (status_of k x) ≡ false
    → is_loose s 0 0 ≡ true
    → is_curr s ≡ false
    → is_avail s ≡ false
    → (is_avail (status_of k x) || is_curr (status_of k x)) ≡ false
    → (x == k.curr_pid) ≡ false
    → Woken k (set_status k x s)
set_status-Woken k w x s v loose idle other quiet ready off apart = record {
  waits = aim_sem (aim_cond w x 0) x 0;
  placed = record {
    placed =
        PlacedIn-set_status k (aim_sem (aim_cond w x 0) x 0) x s
          (Placed-loose v.placed x s 0 0 loose other);
    running = λ p h. ground (arith, v.running p, quiet);
    null_ready = ground (arith, v.null_ready, off);
  };
  same = refl;
  marked = ground (arith, apart);
  busy = λ h. ground (arith, apart, h);
  preempts = λ h q p a. ground (arith, h q p, ready);
}

module _ (k : Kernel) (w : Waits) (x : ℕ) (v : IsPlaced k w)
    (apart : (x == k.curr_pid) ≡ false) where
  pub claim-Woken : is_unused (status_of k x) ≡ true → Woken k (set_status k x unavail)
  claim-Woken free =
      set_status-Woken k w x unavail v (ground (arith, free)) (ground (arith, free)) refl refl refl
        (ground (arith, free)) apart

  module _ (claimed : status_of k x ≡ unavail) where
    pub give_back-Woken : Woken k (set_status k x unused)
    give_back-Woken =
        set_status-Woken k w x unused v (rw claimed refl) (rw claimed refl) refl refl refl
          (rw claimed refl) apart

    Keyed-occupy :
        (priority : ℕ) (q : List Entry)
        → has x q ≡ false
        → Keyed (priority_of k) q
        → Keyed (priority_of (occupy k x priority)) q
    Keyed-occupy priority [] h a = tt
    Keyed-occupy priority (e ∷ q) h a = (ground arith, Keyed-occupy priority q (ground arith) a.1)

    pub status-occupy : (priority : ℕ) → status_of (occupy k x priority) ≡ status_of k
    status-occupy priority = fun_ext λ p. ground (arith, ==→eq x p)

    ready_list : has x k.avail_list ≡ false
    ready_list = v.placed.avail.holds x ∙ rw claimed refl

    pub occupy-Woken : (priority : ℕ) → Woken k (occupy k x priority)
    occupy-Woken priority =
        let st = status-occupy priority in
        record {
          waits = w;
          placed = record {
            placed = rw st (record {
              avail = v.placed.avail;
              keyed = Keyed-occupy priority k.avail_list ready_list v.placed.keyed;
              sems = v.placed.sems;
              balanced = v.placed.balanced;
              conds = v.placed.conds;
              sleepers = v.placed.sleepers;
            });
            running = λ p h. v.running p (ap (λ f. is_curr (f p)) (sym st) ∙ h);
            null_ready = ap (λ f. is_avail (f 0) || is_curr (f 0)) st ∙ v.null_ready;
          };
          same = refl;
          marked = ap (λ f. is_curr (f k.curr_pid)) st;
          busy = λ h. ap (λ f. is_unused (f k.curr_pid)) st ∙ h;
          preempts = λ h q p a. raised priority p (h q p) (ap (λ f. is_avail (f p)) (sym st) ∙ a);
        }
      where
        raised :
            (priority p : ℕ)
            → (is_avail (status_of k p) ≡ true → priority_of k p ≤ priority_of k k.curr_pid)
            → is_avail (status_of k p) ≡ true
            → priority_of (occupy k x priority) p ≤ priority_of (occupy k x priority) k.curr_pid
        raised priority p h a = elim (Bool-cases (x == p)) [
          | inl e ↦
              absurd (cc (a, ap (λ q. is_avail (status_of k q)) (==→eq x p e), ap is_avail claimed))
          | inr e ↦ ground (arith, h a, e, apart)
        ]

    pub make_avail_claimed-Woken : Woken k (make_avail k x)
    make_avail_claimed-Woken = make_avail-Woken k w x (status_of k x) (record {
      placed =
          subst (λ (f : ℕ → Status). PlacedIn f w k) (sym (update_self (status_of k) x)) v.placed;
      loose = rw claimed refl;
      waits = rw claimed refl;
      running = v.running;
      null_ready = v.null_ready;
    })

pub exit-IsSound : (y : System) → IsSound y.kernel → y.kernel.curr_pid ≢ 0 → IsSound (exit y).kernel
unfolding exit
exit-IsSound y v busy =
    let k = y.kernel in
    let x = k.curr_pid in
    let w : Waits = aim_sem (aim_cond v.waits x 0) x 0 in
    let p = v.settled.is_placed in
    sched-IsSound (set_status k x unused) w (record {
      placed =
          PlacedIn-set_status k w x unused
            (Placed-loose p.placed x unused 0 0 (ground (arith, v.settled.current)) refl);
      running = λ q h. ground (arith, p.running q);
      null_ready = ground (arith, p.null_ready, p.running 0);
    })

-- Both outcomes of `create`: the lowest free row is taken, with a stack of its own, or none is.
pub find_pid_lem : (k : Kernel) → FoundPid k 1 10 (find_pid 9 1 k)
find_pid_lem k = find_pid-FoundPid 9 1 k
