-- ===== src/Kernel/Queue.antt =====
-- A process queue as its list of entries: what the linked lists of src/system/proc_queue.c stand for.
-- A key is a C int in offset binary: INT_MIN is 0, zero is 2 ^ 31.
use teatime_os.Base.{
  ℕ, ◌+◌, ◌≤◌, ◌≡◌, refl, Bool, false, not, ◌&&◌, ◌||◌, List, [], ◌∷◌, All, arith, leb, ◌==◌,
  if◌then◌else◌, length,
}

pub record Entry : Type 0 where
  pub pid : ℕ
  pub key : ℕ

abbrev pub entry : ℕ → ℕ → Entry
entry p k = record { pid = p; key = k }

-- Behind every entry whose key is at least `key`.
unfoldable pub enqueue : ℕ → ℕ → List Entry → List Entry
enqueue pid key [] = entry pid key ∷ []
enqueue pid key (e ∷ q) =
    if leb key e.key
    then (if e.pid == pid then e ∷ q else e ∷ enqueue pid key q)
    else entry pid key ∷ e ∷ q

unfoldable pub remove : ℕ → List Entry → List Entry
remove pid [] = []
remove pid (e ∷ q) = if e.pid == pid then q else e ∷ remove pid q

abbrev pub has : ℕ → List Entry → Bool
has pid [] = false
has pid (e ∷ q) = (e.pid == pid) || has pid q

-- No process stands on a queue twice.
abbrev pub Once : List Entry → Type 0
Once [] = Unit
Once (e ∷ q) = (has e.pid q ≡ false) × Once q

-- Keys fall from the head to the tail.
abbrev pub IsSorted : List Entry → Type 0
IsSorted [] = Unit
IsSorted (e ∷ q) = All (λ (f : Entry). f.key ≤ e.key) q × IsSorted q

pub has-enqueue :
    (p pid key : ℕ) (q : List Entry) → has p (enqueue pid key q) ≡ ((pid == p) || has p q)
unfolding enqueue
has-enqueue p pid key [] = refl
has-enqueue p pid key (e ∷ q) = ground (arith, has-enqueue p pid key q)

pub enqueue-Once :
    (pid key : ℕ) (q : List Entry) → has pid q ≡ false → Once q → Once (enqueue pid key q)
unfolding enqueue
enqueue-Once pid key [] h o = (refl, tt)
enqueue-Once pid key (e ∷ q) h o =
    ground (arith, has-enqueue e.pid pid key q, enqueue-Once pid key q)

pub length-enqueue :
    (pid key : ℕ) (q : List Entry) → has pid q ≡ false → length (enqueue pid key q) ≡ length q + 1
unfolding enqueue
length-enqueue pid key [] h = refl
length-enqueue pid key (e ∷ q) h = ground (arith, length-enqueue pid key q)

pub has-remove :
    (p pid : ℕ) (q : List Entry) → Once q → has p (remove pid q) ≡ (not (pid == p) && has p q)
unfolding remove
has-remove p pid [] o = ground arith
has-remove p pid (e ∷ q) o = ground (arith, has-remove p pid q o.1)

pub remove-Once : (pid : ℕ) (q : List Entry) → Once q → Once (remove pid q)
unfolding remove
remove-Once pid [] o = tt
remove-Once pid (e ∷ q) o = ground (arith, remove-Once pid q o.1, has-remove e.pid pid q o.1)

pub remove-absent : (pid : ℕ) (q : List Entry) → has pid q ≡ false → remove pid q ≡ q
unfolding remove
remove-absent pid [] h = refl
remove-absent pid (e ∷ q) h = ground (arith, remove-absent pid q)

All-enqueue :
    (n pid key : ℕ) (q : List Entry)
    → key ≤ n
    → All (λ (f : Entry). f.key ≤ n) q
    → All (λ (f : Entry). f.key ≤ n) (enqueue pid key q)
unfolding enqueue
All-enqueue n pid key [] h a = (h, tt)
All-enqueue n pid key (e ∷ q) h a = ground (arith, All-enqueue n pid key q h a.1)

All-below :
    (n m : ℕ) (q : List Entry)
    → n ≤ m
    → All (λ (f : Entry). f.key ≤ n) q
    → All (λ (f : Entry). f.key ≤ m) q
All-below n m [] h a = tt
All-below n m (e ∷ q) h a = (omega arith, All-below n m q h a.1)

pub enqueue-IsSorted : (pid key : ℕ) (q : List Entry) → IsSorted q → IsSorted (enqueue pid key q)
unfolding enqueue
enqueue-IsSorted pid key [] s = (tt, tt)
enqueue-IsSorted pid key (e ∷ q) s =
    ground
      (arith, enqueue-IsSorted pid key q s.1, All-enqueue e.key pid key q, All-below e.key key q)

All-remove :
    (n pid : ℕ) (q : List Entry)
    → All (λ (f : Entry). f.key ≤ n) q
    → All (λ (f : Entry). f.key ≤ n) (remove pid q)
unfolding remove
All-remove n pid [] a = tt
All-remove n pid (e ∷ q) a = ground (arith, All-remove n pid q a.1)

pub remove-IsSorted : (pid : ℕ) (q : List Entry) → IsSorted q → IsSorted (remove pid q)
unfolding remove
remove-IsSorted pid [] s = tt
remove-IsSorted pid (e ∷ q) s =
    ground (arith, remove-IsSorted pid q s.1, All-remove e.key pid q s.0)
