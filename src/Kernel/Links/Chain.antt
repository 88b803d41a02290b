-- ===== src/Kernel/Links/Chain.antt =====
-- Which linked entries stand for which list.
use teatime_os.Base.{ℕ, ◌-◌, ◌^◌, ◌≡◌, ◌∙◌, true, false, none, some, List, [], ◌∷◌, ◌==◌, arith}
use teatime_os.Kernel.Queue.{Entry, has}
use teatime_os.Kernel.Links.{Links}

-- From the entry behind `a` to `t`, forward and back.
abbrev pub Chain : Links → ℕ → List Entry → ℕ → Type 0
Chain l a [] t = (l.next a ≡ some t) × (l.prev t ≡ some a)
Chain l a (e ∷ q) t =
    (l.next a ≡ some e.pid)
    × (l.prev e.pid ≡ some a)
    × (l.key e.pid ≡ e.key)
    × (l.pid e.pid ≡ e.pid)
    × Chain l e.pid q t

-- A queue: its head and its tail bound it, with the largest and the smallest key.
pub record IsQueue (l : Links) (head : ℕ) (q : List Entry) (tail : ℕ) : Type 0 where
  pub chain : Chain l head q tail
  pub head_key : l.key head ≡ 2 ^ 32 - 1
  pub tail_key : l.key tail ≡ 0
  pub last : l.next tail ≡ none
  pub no_head : has head q ≡ false
  pub no_tail : has tail q ≡ false
  pub ends : (head == tail) ≡ false

-- What a change of the links leaves alone.
pub record Apart (l l' : Links) (a : ℕ) (q : List Entry) (t : ℕ) : Type 0 where
  pub next_a : l'.next a ≡ l.next a
  pub prev_t : l'.prev t ≡ l.prev t
  pub next_q : (x : ℕ) → has x q ≡ true → l'.next x ≡ l.next x
  pub prev_q : (x : ℕ) → has x q ≡ true → l'.prev x ≡ l.prev x
  pub key_q : (x : ℕ) → has x q ≡ true → l'.key x ≡ l.key x
  pub pid_q : (x : ℕ) → has x q ≡ true → l'.pid x ≡ l.pid x

pub Chain-frame :
    (l l' : Links) (a : ℕ) (q : List Entry) (t : ℕ)
    → Apart l l' a q t
    → Chain l a q t
    → Chain l' a q t
Chain-frame l l' a [] t f c = (f.next_a ∙ c.0, f.prev_t ∙ c.1)
Chain-frame l l' a (e ∷ q) t f c =
    let here : has e.pid (e ∷ q) ≡ true = ground arith in
    (
      f.next_a ∙ c.0,
      f.prev_q e.pid here ∙ c.1,
      f.key_q e.pid here ∙ c.2,
      f.pid_q e.pid here ∙ c.3,
      Chain-frame l l' e.pid q t
          (record {
            next_a = f.next_q e.pid here;
            prev_t = f.prev_t;
            next_q = λ x h. f.next_q x (ground (arith, h));
            prev_q = λ x h. f.prev_q x (ground (arith, h));
            key_q = λ x h. f.key_q x (ground (arith, h));
            pid_q = λ x h. f.pid_q x (ground (arith, h));
          })
          c.4,
    )
