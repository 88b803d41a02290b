-- ===== src/Base/Xor.antt =====
-- The laws of exclusive or on numbers.
use Prim.Native.Nat.{
  bit_xor, bit_xor-bitwise, digits, differ, ℕ, zero, suc, ◌≤◌, ◌<◌, ◌+◌, ◌*◌, ◌/◌, ◌%◌,
}
use mathlib.Core.Path.{◌≡◌, refl, ◌∙◌, ap}
use native.Mathlib.Omega.{arith}

abbrev xor_digits : ℕ → ℕ → ℕ → ℕ
xor_digits n a b = digits (λ b. b) differ n a b

xor_digits_fuel : (a b n m : ℕ) → a ≤ n → a ≤ m → xor_digits n a b ≡ xor_digits m a b
xor_digits_fuel a b zero zero p q = refl
xor_digits_fuel zero b zero (suc m) p q = refl
xor_digits_fuel (suc a) b zero (suc m) p q = absurd (omega arith)
xor_digits_fuel zero b (suc n) zero p q = refl
xor_digits_fuel (suc a) b (suc n) zero p q = absurd (omega arith)
xor_digits_fuel zero b (suc n) (suc m) p q = refl
xor_digits_fuel (suc a) b (suc n) (suc m) p q =
    omega (arith, xor_digits_fuel (suc a / 2) (b / 2) n m (omega arith) (omega arith))

zero-bit_xor : (b : ℕ) → bit_xor 0 b ≡ b
zero-bit_xor b = bit_xor-bitwise 0 b

differ_lem : (a b : ℕ) → a < 2 → b < 2 → differ a b ≡ (a + b) % 2
differ_lem zero b p q = omega arith
differ_lem (suc zero) zero p q = omega arith
differ_lem (suc zero) (suc zero) p q = omega arith
differ_lem (suc zero) (suc (suc b)) p q = absurd (omega arith)
differ_lem (suc (suc a)) b p q = absurd (omega arith)

pub bit_xor_step : (a b : ℕ) → bit_xor a b ≡ bit_xor (a / 2) (b / 2) * 2 + (a + b) % 2
bit_xor_step zero b = omega (arith, zero-bit_xor b, zero-bit_xor (b / 2))
bit_xor_step (suc a) b = omega (
  arith,
  bit_xor-bitwise (suc a) b,
  bit_xor-bitwise (suc a / 2) (b / 2),
  xor_digits_fuel (suc a / 2) (b / 2) a (suc a / 2) (omega arith) (omega arith),
  differ_lem (suc a % 2) (b % 2) (omega arith) (omega arith),
)

-- Half of an exclusive or, and its lowest bit.
half-bit_xor : (a b : ℕ) → bit_xor a b / 2 ≡ bit_xor (a / 2) (b / 2)
half-bit_xor a b = omega (arith, bit_xor_step a b)

low-bit_xor : (a b : ℕ) → bit_xor a b % 2 ≡ (a + b) % 2
low-bit_xor a b = omega (arith, bit_xor_step a b)

comm_below : (n a b : ℕ) → a ≤ n → b ≤ n → bit_xor a b ≡ bit_xor b a
comm_below zero a b p q =
    let e : a ≡ 0 = omega arith in let f : b ≡ 0 = omega arith in rw (e, f) refl
comm_below (suc n) a b p q = omega (
  arith,
  bit_xor_step a b,
  bit_xor_step b a,
  comm_below n (a / 2) (b / 2) (omega arith) (omega arith),
)

assoc_below :
    (n a b c : ℕ) → a ≤ n → b ≤ n → c ≤ n → bit_xor (bit_xor a b) c ≡ bit_xor a (bit_xor b c)
assoc_below zero a b c p q r =
    let e : a ≡ 0 = omega arith in
    let f : b ≡ 0 = omega arith in let g : c ≡ 0 = omega arith in rw (e, f, g) refl
assoc_below (suc n) a b c p q r =
    let left : bit_xor (bit_xor a b) c
        ≡ bit_xor (bit_xor (a / 2) (b / 2)) (c / 2) * 2 + (bit_xor a b + c) % 2 =
      rw (← half-bit_xor a b) (bit_xor_step (bit_xor a b) c) in
    let right : bit_xor a (bit_xor b c)
        ≡ bit_xor (a / 2) (bit_xor (b / 2) (c / 2)) * 2 + (a + bit_xor b c) % 2 =
      rw (← half-bit_xor b c) (bit_xor_step a (bit_xor b c)) in
    omega (
      arith,
      left,
      right,
      low-bit_xor a b,
      low-bit_xor b c,
      assoc_below n (a / 2) (b / 2) (c / 2) (omega arith) (omega arith) (omega arith),
    )

self_below : (n a : ℕ) → a ≤ n → bit_xor a a ≡ 0
self_below zero a p = let e : a ≡ 0 = omega arith in rw e refl
self_below (suc n) a p = omega (arith, bit_xor_step a a, self_below n (a / 2) (omega arith))

pub bit_xor_comm : (a b : ℕ) → bit_xor a b ≡ bit_xor b a
bit_xor_comm a b = comm_below (a + b) a b (omega arith) (omega arith)

pub bit_xor_assoc : (a b c : ℕ) → bit_xor (bit_xor a b) c ≡ bit_xor a (bit_xor b c)
bit_xor_assoc a b c = assoc_below (a + b + c) a b c (omega arith) (omega arith) (omega arith)

pub bit_xor_self : (a : ℕ) → bit_xor a a ≡ 0
bit_xor_self a = self_below a a (omega arith)

pub bit_xor_zero : (a : ℕ) → bit_xor a 0 ≡ a
bit_xor_zero a = bit_xor_comm a 0 ∙ zero-bit_xor a

-- The same key twice gives back what was there.
pub bit_xor_cancel : (a b : ℕ) → bit_xor (bit_xor a b) b ≡ a
bit_xor_cancel a b = bit_xor_assoc a b b ∙ ap (bit_xor a) (bit_xor_self b) ∙ bit_xor_zero a

pub bit_xor-byte : (a b : ℕ) → a < 256 → b < 256 → bit_xor a b < 256
bit_xor-byte a b p q = omega (
  arith,
  bit_xor_step a b,
  bit_xor_step (a / 2) (b / 2),
  bit_xor_step (a / 2 / 2) (b / 2 / 2),
  bit_xor_step (a / 2 / 2 / 2) (b / 2 / 2 / 2),
  bit_xor_step (a / 2 / 2 / 2 / 2) (b / 2 / 2 / 2 / 2),
  bit_xor_step (a / 2 / 2 / 2 / 2 / 2) (b / 2 / 2 / 2 / 2 / 2),
  bit_xor_step (a / 2 / 2 / 2 / 2 / 2 / 2) (b / 2 / 2 / 2 / 2 / 2 / 2),
  bit_xor_step (a / 2 / 2 / 2 / 2 / 2 / 2 / 2) (b / 2 / 2 / 2 / 2 / 2 / 2 / 2),
  high (a / 2 / 2 / 2 / 2 / 2 / 2 / 2 / 2) (b / 2 / 2 / 2 / 2 / 2 / 2 / 2 / 2) (omega arith)
      (omega arith),
)
  where
    high : (x y : ℕ) → x ≡ 0 → y ≡ 0 → bit_xor x y ≡ 0
    high x y e f = rw (e, f) refl

-- Digit `k` of a number.
abbrev pub nth : ℕ → ℕ → ℕ
nth zero a = a % 2
nth (suc k) a = nth k (a / 2)

pub nth-bit_xor : (k a b : ℕ) → nth k (bit_xor a b) ≡ (nth k a + nth k b) % 2
nth-bit_xor zero a b = omega (arith, bit_xor_step a b)
nth-bit_xor (suc k) a b = ap (nth k) (half-bit_xor a b) ∙ nth-bit_xor k (a / 2) (b / 2)

pub nth_digit : (k a : ℕ) → nth k a % 2 ≡ nth k a
nth_digit zero a = omega arith
nth_digit (suc k) a = nth_digit k (a / 2)

pub nth_zero : (k : ℕ) → nth k 0 ≡ 0
nth_zero zero = refl
nth_zero (suc k) = nth_zero k

nth_ext_below : (n a b : ℕ) → a ≤ n → b ≤ n → ((k : ℕ) → nth k a ≡ nth k b) → a ≡ b
nth_ext_below zero a b p q h = omega arith
nth_ext_below (suc n) a b p q h =
    omega (arith, h 0, nth_ext_below n (a / 2) (b / 2) (omega arith) (omega arith) (λ k. h (suc k)))

-- Numbers with the same digits are the same.
pub nth_ext : (a b : ℕ) → ((k : ℕ) → nth k a ≡ nth k b) → a ≡ b
nth_ext a b h = nth_ext_below (a + b) a b (omega arith) (omega arith) h
