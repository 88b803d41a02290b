-- ===== src/Crypto/Aes/Back.antt =====
-- A column that is mixed and mixed back: each byte is an exclusive or in which all but one of the
-- terms stand twice.
use Prim.Native.Nat.{bit_xor}
use teatime_os.Base.{ℕ, ◌≡◌, arith, nth-bit_xor, nth_digit, nth_zero, nth_ext}
use teatime_os.Crypto.Aes.{sum4}

abbrev pub m14 : ℕ → ℕ → ℕ → ℕ
m14 p1 p2 p3 = bit_xor (bit_xor (bit_xor 0 p1) p2) p3

abbrev pub m11 : ℕ → ℕ → ℕ → ℕ
m11 p p1 p3 = bit_xor (bit_xor (bit_xor 0 p) p1) p3

abbrev pub m13 : ℕ → ℕ → ℕ → ℕ
m13 p p2 p3 = bit_xor (bit_xor (bit_xor 0 p) p2) p3

abbrev pub m9 : ℕ → ℕ → ℕ
m9 p p3 = bit_xor (bit_xor 0 p) p3

abbrev pub f0 : ℕ → ℕ → ℕ → ℕ → ℕ → ℕ
f0 a1 b1 b c d = bit_xor (bit_xor (bit_xor a1 (bit_xor b1 b)) c) d

abbrev pub f1 : ℕ → ℕ → ℕ → ℕ → ℕ → ℕ
f1 a b1 c1 c d = bit_xor (bit_xor (bit_xor a b1) (bit_xor c1 c)) d

abbrev pub f2 : ℕ → ℕ → ℕ → ℕ → ℕ → ℕ
f2 a b c1 d1 d = bit_xor (bit_xor (bit_xor a b) c1) (bit_xor d1 d)

abbrev pub f3 : ℕ → ℕ → ℕ → ℕ → ℕ → ℕ
f3 a1 a b c d1 = bit_xor (bit_xor (bit_xor (bit_xor a1 a) b) c) d1

-- `a1` to `a4` are the multiples of `a` by the powers of x.
module _ (a a1 a2 a3 a4 b b1 b2 b3 b4 c c1 c2 c3 c4 d d1 d2 d3 d4 : ℕ) where
  pub back0 :
      sum4
        (m14 (f0 a2 b2 b1 c1 d1) (f0 a3 b3 b2 c2 d2) (f0 a4 b4 b3 c3 d3))
        (m11 (f1 a b1 c1 c d) (f1 a1 b2 c2 c1 d1) (f1 a3 b4 c4 c3 d3))
        (m13 (f2 a b c1 d1 d) (f2 a2 b2 c3 d3 d2) (f2 a3 b3 c4 d4 d3))
        (m9 (f3 a1 a b c d1) (f3 a4 a3 b3 c3 d4))
      ≡ a
  back0 = nth_ext _ _ (λ k. simp (nth-bit_xor, nth_zero) (omega (arith, nth_digit k a)))

  pub back1 :
      sum4
        (m9 (f0 a1 b1 b c d) (f0 a4 b4 b3 c3 d3))
        (m14 (f1 a1 b2 c2 c1 d1) (f1 a2 b3 c3 c2 d2) (f1 a3 b4 c4 c3 d3))
        (m11 (f2 a b c1 d1 d) (f2 a1 b1 c2 d2 d1) (f2 a3 b3 c4 d4 d3))
        (m13 (f3 a1 a b c d1) (f3 a3 a2 b2 c2 d3) (f3 a4 a3 b3 c3 d4))
      ≡ b
  back1 = nth_ext _ _ (λ k. simp (nth-bit_xor, nth_zero) (omega (arith, nth_digit k b)))

  pub back2 :
      sum4
        (m13 (f0 a1 b1 b c d) (f0 a3 b3 b2 c2 d2) (f0 a4 b4 b3 c3 d3))
        (m9 (f1 a b1 c1 c d) (f1 a3 b4 c4 c3 d3))
        (m14 (f2 a1 b1 c2 d2 d1) (f2 a2 b2 c3 d3 d2) (f2 a3 b3 c4 d4 d3))
        (m11 (f3 a1 a b c d1) (f3 a2 a1 b1 c1 d2) (f3 a4 a3 b3 c3 d4))
      ≡ c
  back2 = nth_ext _ _ (λ k. simp (nth-bit_xor, nth_zero) (omega (arith, nth_digit k c)))

  pub back3 :
      sum4
        (m11 (f0 a1 b1 b c d) (f0 a2 b2 b1 c1 d1) (f0 a4 b4 b3 c3 d3))
        (m13 (f1 a b1 c1 c d) (f1 a2 b3 c3 c2 d2) (f1 a3 b4 c4 c3 d3))
        (m9 (f2 a b c1 d1 d) (f2 a3 b3 c4 d4 d3))
        (m14 (f3 a2 a1 b1 c1 d2) (f3 a3 a2 b2 c2 d3) (f3 a4 a3 b3 c3 d4))
      ≡ d
  back3 = nth_ext _ _ (λ k. simp (nth-bit_xor, nth_zero) (omega (arith, nth_digit k d)))
