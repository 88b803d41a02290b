-- ===== src/Kernel/Cond/Creation.antt =====
-- Making a condition variable, in src/system/cond.c.
use teatime_os.Base.{ℕ, refl, true, false, Option, none, some}
use teatime_os.Kernel.State.{Kernel}
use teatime_os.Kernel.Placed.{Waits, IsPlaced}
use teatime_os.Kernel.Wake.{Woken, Woken-refl}
use teatime_os.Kernel.Cond.{find_unused, create_at, cond_create}
use teatime_os.Kernel.Cond.Soundness.{flag-IsPlaced}

create_at-Woken : (k : Kernel) (w : Waits) (o : Option ℕ) → IsPlaced k w → Woken k (create_at k o).0
unfolding create_at
create_at-Woken k w none v = Woken-refl k w v
create_at-Woken k w (some i) v = record {
  waits = w;
  placed = flag-IsPlaced k w i false true v;
  same = refl;
  marked = refl;
  busy = λ b. b;
  preempts = λ p. p;
}

pub cond_create-Woken : (k : Kernel) (w : Waits) → IsPlaced k w → Woken k (cond_create k).0
unfolding cond_create
cond_create-Woken k w v = create_at-Woken k w (find_unused 16 0 k.condtab) v
