-- ===== src/Kernel/Sem/Creation.antt =====
-- Making a semaphore, in src/system/sem.c.
use teatime_os.Base.{
  ℕ, zero, suc, ◌≡◌, refl, true, false, Option, none, some, [], inl, inr, Bool-cases, ◌+◌,
}
use teatime_os.Kernel.State.{Kernel, Count, Sem}
use teatime_os.Kernel.Placed.{Waits, IsPlaced}
use teatime_os.Kernel.Moves.{Placed-recount}
use teatime_os.Kernel.Wake.{Woken, Woken-refl}
use teatime_os.Kernel.Sem.{find_unused, create_at, sem_create}

-- Nothing waits on a semaphore that has not been made.
abbrev pub AreFresh : (ℕ → Sem) → Type 0
AreFresh semtab = (s : ℕ) → (semtab s).used ≡ false → (semtab s).queue ≡ []

abbrev IsFreeSlot : (ℕ → Sem) → Option ℕ → Type 0
IsFreeSlot semtab none = Unit
IsFreeSlot semtab (some i) = (semtab i).used ≡ false

find_unused-IsFreeSlot :
    (rounds i : ℕ) (semtab : ℕ → Sem) → IsFreeSlot semtab (find_unused rounds i semtab)
unfolding find_unused
find_unused-IsFreeSlot zero i semtab = tt
find_unused-IsFreeSlot (suc rounds) i semtab =
    let rest = find_unused-IsFreeSlot rounds (i + 1) semtab in
    elim (Bool-cases (semtab i).used) [
      | inl e ↦ rw (e, find_unused) rest
      | inr e ↦ rw (e, find_unused) e
    ]

create_at-Woken :
    (k : Kernel) (w : Waits) (n : ℕ) (o : Option ℕ)
    → IsPlaced k w
    → AreFresh k.semtab
    → IsFreeSlot k.semtab o
    → Woken k (create_at k (Count.free n) o).0
unfolding create_at
create_at-Woken k w n none v fresh h = Woken-refl k w v
create_at-Woken k w n (some i) v fresh h = record {
  waits = w;
  placed = record {
    placed = Placed-recount v.placed i (Count.free n) true (fresh i h);
    running = v.running;
    null_ready = v.null_ready;
  };
  same = refl;
  marked = refl;
  busy = λ b. b;
  preempts = λ p. p;
}

-- A semaphore is made with a count that is not negative.
pub sem_create-Woken :
    (k : Kernel) (w : Waits) (n : ℕ)
    → IsPlaced k w
    → AreFresh k.semtab
    → Woken k (sem_create k (Count.free n)).0
unfolding sem_create
sem_create-Woken k w n v fresh =
    create_at-Woken k w n (find_unused 16 0 k.semtab) v fresh (find_unused-IsFreeSlot 16 0 k.semtab)
