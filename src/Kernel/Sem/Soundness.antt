-- ===== src/Kernel/Sem/Soundness.antt =====
-- The semaphore calls of src/system/sem.c keep the kernel sound.
use mathlib.Core.Path.{fun_ext}
use teatime_os.Base.{
  ℕ, zero, suc, ◌≡◌, ◌≢◌, refl, sym, ap, subst, true, false, List, [], ◌∷◌, arith, if◌then◌else◌,
  inl, inr, Bool-cases, length,
}
use teatime_os.Kernel.Queue.{Entry, entry, has, enqueue, length-enqueue}
use teatime_os.Kernel.State.{
  Kernel, Count, Status, is_sem_wait, status_of, priority_of, set_status, set_sem,
}
use teatime_os.Kernel.Placed.{Waits, Balanced, IsPlaced}
use teatime_os.Kernel.Moves.{aim_sem, Placed-to_sem, Placed-from_sem, Placed-recount}
use teatime_os.Kernel.Sched.{make_avail, dequeue}
use teatime_os.Kernel.Scheduling.{PlacedIn-set_status}
use teatime_os.Kernel.Wake.{
  IsSound, Woken, Woken-IsSound, update_self, make_avail-Woken, resched-IsSound, sched-IsSound,
}
use teatime_os.Kernel.Sem.{
  decrement, increment, is_negative, is_positive, park_sem, sem_wait, wake_sem, signal, sem_signal,
}

Balanced-decrement :
    (c : Count) (e : Entry) (q : List Entry)
    → is_negative (decrement c) ≡ true
    → Balanced c q
    → has e.pid q ≡ false
    → Balanced (decrement c) (enqueue e.pid e.key q)
unfolding decrement
Balanced-decrement (Count.free zero) e q h b out =
    omega (arith, length-enqueue e.pid e.key q out, ap length b)
Balanced-decrement (Count.free (suc n)) e q h b out = cc
Balanced-decrement (Count.owed n) e q h b out = omega (arith, length-enqueue e.pid e.key q out)

Balanced-free :
    (c : Count) (q : List Entry)
    → is_negative (decrement c) ≡ false
    → Balanced c q
    → Balanced (decrement c) q
unfolding decrement
Balanced-free (Count.free zero) q h b = cc
Balanced-free (Count.free (suc n)) q h b = b
Balanced-free (Count.owed n) q h b = cc

abbrev with_sem : Kernel → ℕ → Count → List Entry → Kernel
with_sem k s count queue = set_sem k s (record (k.semtab s) { count = count; queue = queue })

nil_of_length : (q : List Entry) → length q ≡ 0 → q ≡ []
nil_of_length [] h = refl
nil_of_length (e ∷ q) h = absurd (omega arith)

module _ (k : Kernel) (s : ℕ) where
  abbrev parked_key : ℕ
  parked_key = priority_of (set_status k k.curr_pid Status.sem_wait) k.curr_pid

  park_sem_lem :
      (count : Count)
      → park_sem (set_sem k s (record (k.semtab s) { count = count })) s
        ≡ set_status
            (with_sem k s count (enqueue k.curr_pid parked_key (k.semtab s).queue))
            k.curr_pid
            Status.sem_wait
  unfolding park_sem
  park_sem_lem count =
      ap (λ t. record (set_status k k.curr_pid Status.sem_wait) { semtab = t })
        (fun_ext λ i. ground arith)

  wake_sem_lem :
      (count : Count) (pid : ℕ) (rest : List Entry)
      → wake_sem (set_sem k s (record (k.semtab s) { count = count })) s (pid, rest)
        ≡ make_avail (with_sem k s count rest) pid
  unfolding wake_sem
  wake_sem_lem count pid rest =
      ap (λ t. make_avail (record k { semtab = t }) pid) (fun_ext λ i. ground arith)

-- `signal` with the count and the queue that it reads made arguments.
signal_body : Kernel → ℕ → Count → List Entry → Kernel
unfolding dequeue
signal_body k s more q =
    let k' = set_sem k s (record (k.semtab s) { count = more }) in
    if is_positive more then k' else wake_sem k' s (dequeue q)

module _ (k : Kernel) (s : ℕ) (v : IsSound k) where
  park_sem-IsPlaced :
      k.curr_pid ≢ 0
      → is_negative (decrement (k.semtab s).count) ≡ true
      → IsPlaced
          (park_sem (set_sem k s (record (k.semtab s) { count = decrement (k.semtab s).count })) s)
          (aim_sem v.waits k.curr_pid (suc s))
  park_sem-IsPlaced busy h =
      let w = v.settled.is_placed in
      let balance =
        Balanced-decrement (k.semtab s).count (entry k.curr_pid (parked_key k s)) (k.semtab s).queue
          h (w.placed.balanced s)
          (ground (arith, v.settled.current, (w.placed.sems s).holds k.curr_pid)) in
      rw (park_sem_lem k s (decrement (k.semtab s).count)) (record {
        placed =
            PlacedIn-set_status
              (with_sem k s (decrement (k.semtab s).count)
                (enqueue k.curr_pid (parked_key k s) (k.semtab s).queue))
              (aim_sem v.waits k.curr_pid (suc s)) k.curr_pid Status.sem_wait
              (Placed-to_sem w.placed k.curr_pid s (parked_key k s) _ _
                (ground (arith, v.settled.current)) balance);
        running = λ p e. ground (arith, w.running p);
        null_ready = ground (arith, w.null_ready, w.running 0);
      })

  pub sem_wait-IsSound : k.curr_pid ≢ 0 → IsSound (sem_wait k s)
  unfolding sem_wait
  sem_wait-IsSound busy = elim (Bool-cases (is_negative (decrement (k.semtab s).count))) [
    | inl e ↦ rw e (sched-IsSound _ (aim_sem v.waits k.curr_pid (suc s)) (park_sem-IsPlaced busy e))
    | inr e ↦ rw e (record {
      waits = v.waits;
      settled = record {
        is_placed = record {
          placed =
              Placed-recount v.settled.is_placed.placed s (decrement (k.semtab s).count)
                (k.semtab s).used
                (Balanced-free (k.semtab s).count (k.semtab s).queue e
                  (v.settled.is_placed.placed.balanced s));
          running = v.settled.is_placed.running;
          null_ready = v.settled.is_placed.null_ready;
        };
        current = v.settled.current;
      };
      preempts = v.preempts;
    })
  ]

module _ (k : Kernel) (w : Waits) (s : ℕ) (v : IsPlaced k w) where
  wake_sem-Woken :
      (e : Entry) (q : List Entry) (count : Count)
      → (k.semtab s).queue ≡ e ∷ q
      → Balanced count q
      → Woken k (wake_sem (set_sem k s (record (k.semtab s) { count = count })) s (e.pid, q))
  wake_sem-Woken e q count at bal =
      let there : is_sem_wait (status_of k e.pid) ≡ true =
        ground (arith, (v.placed.sems s).holds e.pid, at) in
      let up =
        make_avail-Woken (with_sem k s count q) (aim_sem w e.pid 0) e.pid (status_of k e.pid)
          (record {
            placed =
                rw (update_self (status_of k) e.pid)
                  (Placed-from_sem v.placed s e q count (k.semtab s).used at bal);
            loose = ground (arith, there);
            waits = ground (arith, there);
            running = v.running;
            null_ready = v.null_ready;
          }) in
      rw (wake_sem_lem k s count e.pid q) (record {
        waits = up.waits;
        placed = up.placed;
        same = up.same;
        marked = up.marked;
        busy = up.busy;
        preempts = up.preempts;
      })

  signal_first_lem :
      (n : ℕ) (f : Entry) (q : List Entry)
      → (k.semtab s).count ≡ Count.owed n
      → (k.semtab s).queue ≡ f ∷ q
      → signal k s
        ≡ wake_sem
            (set_sem k s (record (k.semtab s) { count = increment (Count.owed n) }))
            s
            (f.pid, q)
  unfolding signal increment dequeue signal_body
  signal_first_lem zero f q c e = λ i. signal_body k s (increment (c i)) (e i)
  signal_first_lem (suc n) f q c e = λ i. signal_body k s (increment (c i)) (e i)

  signal_first-Woken :
      (n : ℕ) (q : List Entry)
      → (k.semtab s).count ≡ Count.owed n
      → (k.semtab s).queue ≡ q
      → length q ≡ suc n
      → Woken k (signal k s)
  unfolding increment
  signal_first-Woken n [] c e len = absurd (omega arith)
  signal_first-Woken zero (f ∷ q) c e len =
      rw (signal_first_lem zero f q c e)
        (wake_sem-Woken f q (Count.free 0) e (nil_of_length q (omega arith)))
  signal_first-Woken (suc n) (f ∷ q) c e len =
      rw (signal_first_lem (suc n) f q c e) (wake_sem-Woken f q (Count.owed n) e (omega arith))

  signal_count-Woken : (c : Count) → (k.semtab s).count ≡ c → Woken k (signal k s)
  unfolding signal increment signal_body
  signal_count-Woken (Count.owed n) e =
      signal_first-Woken n (k.semtab s).queue e refl
        (subst (λ c. Balanced c (k.semtab s).queue) e (v.placed.balanced s))
  signal_count-Woken (Count.free n) e =
      subst (Woken k) (λ i. signal_body k s (increment (sym e i)) (k.semtab s).queue)
        (record {
          waits = w;
          placed = record {
            placed =
                Placed-recount v.placed s (Count.free (suc n)) (k.semtab s).used
                  (subst (λ c. Balanced c (k.semtab s).queue) e (v.placed.balanced s));
            running = v.running;
            null_ready = v.null_ready;
          };
          same = refl;
          marked = refl;
          busy = λ h. h;
          preempts = λ h. h;
        })

  pub signal-Woken : Woken k (signal k s)
  signal-Woken = signal_count-Woken (k.semtab s).count refl

pub sem_signal-IsSound : (k : Kernel) (s : ℕ) → IsSound k → IsSound (sem_signal k s)
unfolding sem_signal
sem_signal-IsSound k s v =
    resched-IsSound (signal k s) (Woken-IsSound v (signal-Woken k v.waits s v.settled.is_placed))
