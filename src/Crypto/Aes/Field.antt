-- ===== src/Crypto/Aes/Field.antt =====
-- Multiplication by x in the field of AES, and the columns that are mixed and mixed back.
use Prim.Native.Nat.{bit_xor}
use teatime_os.Base.{
  ℕ, zero, suc, ◌<◌, ◌≡◌, refl, ap, ◌∙◌, Bool, true, ◌&&◌, arith, ◌==◌, ==→eq, bit_xor-byte,
}
use teatime_os.Crypto.Aes.Back.{m14, m11, m13, m9}
use teatime_os.Crypto.Aes.{xtime, mixed0, mixed1, mixed2, mixed3, sum4, mul, mul_loop}

-- A test of all the numbers below a bound, by evaluation.
unfoldable pub passes : (ℕ → Bool) → ℕ → Bool
passes test zero = true
passes test (suc bound) = passes test bound && test bound

pub passes-at :
    (test : ℕ → Bool) (bound v : ℕ) → v < bound → passes test bound ≡ true → test v ≡ true
unfolding passes
passes-at test zero v below e = absurd (omega (arith, below))
passes-at test (suc bound) v below e = ground (arith, passes-at test bound v)

linear : ℕ → ℕ → Bool
linear a b = xtime (bit_xor a b) == bit_xor (xtime a) (xtime b)

linear_table : passes (λ a. passes (linear a) 256) 256 ≡ true
unfolding passes linear xtime
linear_table = refl

pub xtime-bit_xor :
    (a b : ℕ) → a < 256 → b < 256 → xtime (bit_xor a b) ≡ bit_xor (xtime a) (xtime b)
xtime-bit_xor a b p q =
    unfold linear in
    (==→eq _ _
      (passes-at (linear a) 256 b q (passes-at (λ x. passes (linear x) 256) 256 a p linear_table)))

pub xtime-byte : (a : ℕ) → xtime a < 256
unfolding xtime
xtime-byte a = omega arith

pub sum4-byte : (a b c d : ℕ) → a < 256 → b < 256 → c < 256 → d < 256 → sum4 a b c d < 256
sum4-byte a b c d p q r s =
    bit_xor-byte (bit_xor (bit_xor a b) c) d (bit_xor-byte (bit_xor a b) c (bit_xor-byte a b p q) r)
      s

-- xtime of a sum of four.
xtime-sum4 :
    (a b c d : ℕ)
    → a < 256
    → b < 256
    → c < 256
    → d < 256
    → xtime (sum4 a b c d) ≡ sum4 (xtime a) (xtime b) (xtime c) (xtime d)
xtime-sum4 a b c d p q r s =
    let ab = bit_xor-byte a b p q in
    let abc = bit_xor-byte (bit_xor a b) c ab r in
    xtime-bit_xor (bit_xor (bit_xor a b) c) d abc s
    ∙ ap (λ t. bit_xor t (xtime d))
        (xtime-bit_xor (bit_xor a b) c ab r ∙ ap (λ t. bit_xor t (xtime c)) (xtime-bit_xor a b p q))

-- xtime of a value that stands beside its double.
xtime-pair : (a : ℕ) → a < 256 → xtime (bit_xor (xtime a) a) ≡ bit_xor (xtime (xtime a)) (xtime a)
xtime-pair a p = xtime-bit_xor (xtime a) a (xtime-byte a) p

pub pair-byte : (a : ℕ) → a < 256 → bit_xor (xtime a) a < 256
pair-byte a p = bit_xor-byte (xtime a) a (xtime-byte a) p

module _ (a b c d : ℕ) (p : a < 256) (q : b < 256) (r : c < 256) (s : d < 256) where
  pub xtime-mixed0 : xtime (mixed0 a b c d) ≡ mixed0 (xtime a) (xtime b) (xtime c) (xtime d)
  xtime-mixed0 =
      xtime-sum4 (xtime a) (bit_xor (xtime b) b) c d (xtime-byte a) (pair-byte b q) r s
      ∙ ap (λ t. sum4 (xtime (xtime a)) t (xtime c) (xtime d)) (xtime-pair b q)

  pub xtime-mixed1 : xtime (mixed1 a b c d) ≡ mixed1 (xtime a) (xtime b) (xtime c) (xtime d)
  xtime-mixed1 =
      xtime-sum4 a (xtime b) (bit_xor (xtime c) c) d p (xtime-byte b) (pair-byte c r) s
      ∙ ap (λ t. sum4 (xtime a) (xtime (xtime b)) t (xtime d)) (xtime-pair c r)

  pub xtime-mixed2 : xtime (mixed2 a b c d) ≡ mixed2 (xtime a) (xtime b) (xtime c) (xtime d)
  xtime-mixed2 =
      xtime-sum4 a b (xtime c) (bit_xor (xtime d) d) p q (xtime-byte c) (pair-byte d s)
      ∙ ap (λ t. sum4 (xtime a) (xtime b) (xtime (xtime c)) t) (xtime-pair d s)

  pub xtime-mixed3 : xtime (mixed3 a b c d) ≡ mixed3 (xtime a) (xtime b) (xtime c) (xtime d)
  xtime-mixed3 =
      xtime-sum4 (bit_xor (xtime a) a) b c (xtime d) (pair-byte a p) q r (xtime-byte d)
      ∙ ap (λ t. sum4 t (xtime b) (xtime c) (xtime (xtime d))) (xtime-pair a p)

-- The products of `mul` by the four coefficients, from the powers of x.
module _ (p p1 p2 p3 : ℕ) (e1 : xtime p ≡ p1) (e2 : xtime p1 ≡ p2) (e3 : xtime p2 ≡ p3) where
  mul-fourteen : mul p 14 ≡ m14 p1 p2 p3
  unfolding mul_loop
  mul-fourteen = rw (e1, e2, e3) refl

  mul-eleven : mul p 11 ≡ m11 p p1 p3
  unfolding mul_loop
  mul-eleven = rw (e1, e2, e3) refl

  mul-thirteen : mul p 13 ≡ m13 p p2 p3
  unfolding mul_loop
  mul-thirteen = rw (e1, e2, e3) refl

  mul-nine : mul p 9 ≡ m9 p p3
  unfolding mul_loop
  mul-nine = rw (e1, e2, e3) refl

  pub products :
      (mul p 14 ≡ m14 p1 p2 p3)
      × (mul p 11 ≡ m11 p p1 p3)
      × (mul p 13 ≡ m13 p p2 p3)
      × (mul p 9 ≡ m9 p p3)
  products = (mul-fourteen, mul-eleven, mul-thirteen, mul-nine)
