-- ===== src/Tcp/Seq.antt =====
-- The comparisons of 32-bit sequence numbers.
use teatime_os.Base.{ℕ, ◌^◌, ◌<◌, ◌≡◌, Bool, true, false, not, ◌||◌, arith, leb, ◌==◌, add32, sub32}

-- `(int)((a) - (b)) < 0` and its three companions.
abbrev pub seq_lt : ℕ → ℕ → Bool
seq_lt a b = leb (2 ^ 31) (sub32 a b)

abbrev pub seq_leq : ℕ → ℕ → Bool
seq_leq a b = leb (2 ^ 31) (sub32 a b) || (sub32 a b == 0)

-- Numbers less than 2 ^ 31 apart compare as they follow each other, also where they wrap: with `b`
-- reached `d` bytes after `a`, `a` comes before `b` but not after it, and exactly then `d` is not 0.
pub seq_lt_lem :
    (a d : ℕ)
    → a < 2 ^ 32
    → d < 2 ^ 31
    → (seq_lt a (add32 a d) ≡ not (d == 0))
      × (seq_lt (add32 a d) a ≡ false)
      × (seq_leq a (add32 a d) ≡ true)
      × (seq_leq (add32 a d) a ≡ (d == 0))
seq_lt_lem a d ha hd = (ground arith, ground arith, ground arith, ground arith)
