-- ===== src/Kernel/SleepList.antt =====
-- The sleep list of src/system/sleep.c: who sleeps, in which order.
use teatime_os.Base.{
  ℕ, ◌^◌, ◌≡◌, refl, Bool, false, not, ◌&&◌, ◌||◌, List, [], ◌∷◌, arith, leb, ◌==◌, if◌then◌else◌,
  sub32,
}
use teatime_os.Kernel.State.{Sleeper}
use teatime_os.Kernel.Placed.{sleeps, SleepOnce, SleepOk}

abbrev pub sleeper : ℕ → ℕ → Sleeper
sleeper p t = record { pid = p; wake_at = t }

-- `(int)(a - b) <= 0` on unsigned ints.
abbrev pub at_or_before : ℕ → ℕ → Bool
at_or_before a b = (sub32 a b == 0) || leb (2 ^ 31) (sub32 a b)

unfoldable pub sleep_insert : Sleeper → List Sleeper → List Sleeper
sleep_insert e [] = e ∷ []
sleep_insert e (f ∷ l) =
    if at_or_before f.wake_at e.wake_at then f ∷ sleep_insert e l else e ∷ f ∷ l

unfoldable pub sleep_delete : ℕ → List Sleeper → List Sleeper
sleep_delete pid [] = []
sleep_delete pid (f ∷ l) = if f.pid == pid then l else f ∷ sleep_delete pid l

sleeps-sleep_insert :
    (p : ℕ) (e : Sleeper) (l : List Sleeper)
    → sleeps p (sleep_insert e l) ≡ ((e.pid == p) || sleeps p l)
unfolding sleep_insert
sleeps-sleep_insert p e [] = refl
sleeps-sleep_insert p e (f ∷ l) = ground (arith, sleeps-sleep_insert p e l)

sleep_insert-SleepOnce :
    (e : Sleeper) (l : List Sleeper)
    → sleeps e.pid l ≡ false
    → SleepOnce l
    → SleepOnce (sleep_insert e l)
unfolding sleep_insert
sleep_insert-SleepOnce e [] h o = (refl, tt)
sleep_insert-SleepOnce e (f ∷ l) h o =
    ground (arith, sleeps-sleep_insert f.pid e l, sleep_insert-SleepOnce e l)

pub SleepOk-insert :
    (e : Sleeper) {f g : ℕ → Bool} {l : List Sleeper}
    → SleepOk f l
    → f e.pid ≡ false
    → ((p : ℕ) → ((e.pid == p) || f p) ≡ g p)
    → SleepOk g (sleep_insert e l)
SleepOk-insert e {l} v free h = record {
  holds = λ p. ground (arith, sleeps-sleep_insert p e l, v.holds p, h p);
  once = sleep_insert-SleepOnce e l (ground (arith, v.holds e.pid)) v.once;
}

sleeps-sleep_delete :
    (p x : ℕ) (l : List Sleeper)
    → SleepOnce l
    → sleeps p (sleep_delete x l) ≡ (not (x == p) && sleeps p l)
unfolding sleep_delete
sleeps-sleep_delete p x [] o = ground arith
sleeps-sleep_delete p x (f ∷ l) o = ground (arith, sleeps-sleep_delete p x l o.1)

sleep_delete-SleepOnce : (x : ℕ) (l : List Sleeper) → SleepOnce l → SleepOnce (sleep_delete x l)
unfolding sleep_delete
sleep_delete-SleepOnce x [] o = tt
sleep_delete-SleepOnce x (f ∷ l) o =
    ground (arith, sleep_delete-SleepOnce x l o.1, sleeps-sleep_delete f.pid x l o.1)

pub SleepOk-delete :
    (x : ℕ) {f g : ℕ → Bool} {l : List Sleeper}
    → SleepOk f l
    → ((p : ℕ) → (not (x == p) && f p) ≡ g p)
    → SleepOk g (sleep_delete x l)
SleepOk-delete x {l} v h = record {
  holds = λ p. ground (arith, sleeps-sleep_delete p x l v.once, v.holds p, h p);
  once = sleep_delete-SleepOnce x l v.once;
}

pub SleepOk-tail :
    (e : Sleeper) {f g : ℕ → Bool} {l : List Sleeper}
    → SleepOk f (e ∷ l)
    → ((p : ℕ) → (not (e.pid == p) && f p) ≡ g p)
    → SleepOk g l
SleepOk-tail e {l} v h = record {
  holds = λ p. ground (arith, v.once, v.holds p, h p);
  once = v.once.1;
}

pub SleepOk-cong :
    {f g : ℕ → Bool} {l : List Sleeper} → ((p : ℕ) → f p ≡ g p) → SleepOk f l → SleepOk g l
SleepOk-cong h v = record { holds = λ p. ground (arith, v.holds p, h p); once = v.once }
