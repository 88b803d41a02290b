-- ===== src/Runtime/Division/Laws.antt =====
-- The shift-and-subtract division computes quotient and remainder.
use native.Mathlib.Nat.{
  div-div-eq-div-mul, div-le_self, pow-suc, div-eq_of_lt-le, mod-eq-sub-div-mul,
}
use teatime_os.Base.{
  ℕ, zero, suc, ◌+◌, ◌-◌, ◌*◌, ◌/◌, ◌%◌, ◌^◌, ◌≤◌, ◌<◌, ◌≡◌, refl, sym, ap, ◌∙◌, ◌⊎◌, inl, inr,
  subst, Bool, true, false, leb, if◌then◌else◌, arith, Bool-cases, leb→le, le→leb,
}
use teatime_os.Runtime.Division.{
  udivmod_loop, udivmod, udivsi3, umodsi3, shift_in, is_negative, negate, magnitude, differ, divsi3,
  modsi3,
}

-- The next bit of `num` below bit `i + 1`.
prefix-step : (num i : ℕ) → num / 2 ^ i ≡ 2 * (num / 2 ^ suc i) + num / 2 ^ i % 2
prefix-step num i = omega (arith, div-div-eq-div-mul num (2 ^ i) 2, ap (λ d. num / d) (pow-suc 2 i))

shift_in_lem :
    (num i q den r : ℕ)
    → num < 2 ^ 32
    → num / 2 ^ suc i ≡ q * den + r
    → num / 2 ^ i ≡ 2 * q * den + shift_in num i r
shift_in_lem num i q den r small e = omega (arith, prefix-step num i, e, div-le_self num (2 ^ i))

-- What the quotient and the remainder of a division are.
abbrev pub Divides : ℕ → ℕ → ℕ × ℕ → Type 0
Divides num den o = (num ≡ o.0 * den + o.1) × (o.1 < den)

next_quotient : (q i : ℕ) → q * 2 ^ suc i + 2 ^ i ≡ (2 * q + 1) * 2 ^ i
next_quotient q i = omega (arith, ap (λ t. q * t) (pow-suc 2 i))

same_quotient : (q i : ℕ) → q * 2 ^ suc i ≡ (2 * q) * 2 ^ i
same_quotient q i = omega (arith, ap (λ t. q * t) (pow-suc 2 i))

-- A round of the loop, for either outcome of its test.
udivmod_loop-round :
    (i num den q r : ℕ) (b : Bool)
    → leb den (shift_in num i r) ≡ b
    → udivmod_loop (suc i) num den q r
      ≡ udivmod_loop i num den
          (if b then q + 2 ^ i else q)
          (if b then shift_in num i r - den else shift_in num i r)
unfolding udivmod_loop
udivmod_loop-round i num den q r b h =
    let r' = shift_in num i r in
    ap (λ t. udivmod_loop i num den (if t then q + 2 ^ i else q) (if t then r' - den else r')) h

udivmod_loop_lem :
    (n num den q r : ℕ)
    → num < 2 ^ 32
    → num / 2 ^ n ≡ q * den + r
    → r < den
    → Divides num den (udivmod_loop n num den (q * 2 ^ n) r)
unfolding udivmod_loop
udivmod_loop_lem zero num den q r small e lt = (omega (arith, e), lt)
udivmod_loop_lem (suc i) num den q r small e lt =
    let s = shift_in_lem num i q den r small e in
    let r' = shift_in num i r in
    let below : r' < den + den = omega (arith, prefix-step num i, lt) in
    elim (Bool-cases (leb den r')) [
      | inl h ↦
          subst (Divides num den)
            (sym (
              udivmod_loop-round i num den (q * 2 ^ suc i) r true h
              ∙ ap (λ x. udivmod_loop i num den x (r' - den)) (next_quotient q i)))
            (udivmod_loop_lem i num den (2 * q + 1) (r' - den) small
              (omega (arith, s, leb→le den r' h)) (omega (arith, below, leb→le den r' h)))
      | inr h ↦
          subst (Divides num den)
            (sym (
              udivmod_loop-round i num den (q * 2 ^ suc i) r false h
              ∙ ap (λ x. udivmod_loop i num den x r') (same_quotient q i)))
            (udivmod_loop_lem i num den (2 * q) r' small s (ground arith))
    ]

udivmod-Divides : (num den : ℕ) → num < 2 ^ 32 → 0 < den → Divides num den (udivmod num den)
unfolding udivmod
udivmod-Divides num den small pos = udivmod_loop_lem 32 num den 0 0 small (omega arith) pos

-- The compiler's division routines compute quotient and remainder of unsigned words, for every
-- divisor but 0.
pub udivsi3_umodsi3_lem :
    (a b : ℕ) → a < 2 ^ 32 → 0 < b → (udivsi3 a b ≡ a / b) × (umodsi3 a b ≡ a % b)
unfolding udivsi3 umodsi3
udivsi3_umodsi3_lem a b small pos =
    let d = udivmod-Divides a b small pos in
    let q : a / b ≡ (udivmod a b).0 = div-eq_of_lt-le b (omega (arith, d.0)) (omega (arith, d)) in
    (sym q, omega (arith, d.0, ap (λ t. t * b) q, mod-eq-sub-div-mul a b))

-- A division by 0 does not trap: every test of the loop succeeds.
udivmod_loop-zero : (n num q r : ℕ) → (udivmod_loop n num 0 q r).0 + 1 ≡ q + 2 ^ n
unfolding udivmod_loop
udivmod_loop-zero zero num q r = refl
udivmod_loop-zero (suc i) num q r =
    ap (λ (o : ℕ × ℕ). o.0 + 1)
      (udivmod_loop-round i num 0 q r true (le→leb 0 (shift_in num i r) (omega arith)))
    ∙ udivmod_loop-zero i num (q + 2 ^ i) (shift_in num i r - 0)
    ∙ omega (arith, pow-suc 2 i)

pub udivsi3-zero : (a : ℕ) → udivsi3 a 0 ≡ 2 ^ 32 - 1
unfolding udivsi3 udivmod
udivsi3-zero a = omega (arith, udivmod_loop-zero 32 a 0 0)

magnitude_le : (a : ℕ) → a < 2 ^ 32 → magnitude a ≤ 2 ^ 31
magnitude_le a h = ground arith

magnitude_pos : (a : ℕ) → a < 2 ^ 32 → 0 < a → 0 < magnitude a
magnitude_pos a h p = ground arith

magnitude-negate : (s : Bool) (q : ℕ) → q ≤ 2 ^ 31 → magnitude (if s then negate q else q) ≡ q
magnitude-negate s q h = ground arith

is_negative-negate :
    (s : Bool) (q : ℕ)
    → q ≤ 2 ^ 31
    → is_negative (if s then negate q else q) ≡ true
    → (s ≡ true) ⊎ (q ≡ 2 ^ 31)
is_negative-negate true q h n = inl refl
is_negative-negate false q h n = inr (ground arith)

-- Only INT_MIN divided by 1 or -1 has a quotient of magnitude 2 ^ 31.
largest_quotient :
    (u v q r : ℕ) → u ≤ 2 ^ 31 → 0 < v → u ≡ q * v + r → q ≡ 2 ^ 31 → (u ≡ 2 ^ 31) × (v ≡ 1)
largest_quotient u v q r h pos e f =
    let g : u ≡ 2 ^ 31 * v + r = omega (arith, e, ap (λ t. t * v) f) in (omega arith, omega arith)

overflows :
    (a b : ℕ)
    → a < 2 ^ 32
    → b < 2 ^ 32
    → magnitude a ≡ 2 ^ 31
    → magnitude b ≡ 1
    → (differ (is_negative a) (is_negative b) ≡ true) ⊎ ((a ≡ 2 ^ 31) × (b ≡ 2 ^ 32 - 1))
overflows a b ha hb u v = elim (Bool-cases (is_negative b)) [
  | inl n ↦ inr (ground arith, ground arith)
  | inr n ↦ inl (ground arith)
]

-- Signed words, for every divisor but 0: the magnitudes of quotient and remainder are those of the
-- magnitudes' division, the remainder is negative only if the dividend is, and the quotient only if
-- the signs differ or INT_MIN is divided by -1.
pub divsi3_modsi3_lem :
    (a b : ℕ)
    → a < 2 ^ 32
    → b < 2 ^ 32
    → 0 < b
    → (magnitude (divsi3 a b) ≡ magnitude a / magnitude b)
      × (magnitude (modsi3 a b) ≡ magnitude a % magnitude b)
      × (is_negative (modsi3 a b) ≡ true → is_negative a ≡ true)
      × (is_negative (divsi3 a b) ≡ true
          → (differ (is_negative a) (is_negative b) ≡ true) ⊎ ((a ≡ 2 ^ 31) × (b ≡ 2 ^ 32 - 1)))
unfolding divsi3 modsi3
divsi3_modsi3_lem a b small_a small_b pos =
    let u = magnitude a in
    let v = magnitude b in
    let hu = magnitude_le a small_a in
    let pv = magnitude_pos b small_b pos in
    let d = udivmod-Divides u v (omega arith) pv in
    let o = udivmod u v in
    let d0 : u ≡ o.0 * v + o.1 = d.0 in
    let e : u / v ≡ o.0 = div-eq_of_lt-le v (omega (arith, d0)) (omega (arith, d)) in
    let f : u % v ≡ o.1 = omega (arith, d0, ap (λ t. t * v) e, mod-eq-sub-div-mul u v) in
    let hq : o.0 ≤ 2 ^ 31 = omega (arith, sym e, div-le_self u v) in
    let hr : o.1 < 2 ^ 31 = omega (arith, d.1, magnitude_le b small_b) in
    (
      magnitude-negate (differ (is_negative a) (is_negative b)) o.0 hq ∙ sym e,
      magnitude-negate (is_negative a) o.1 (omega arith) ∙ sym f,
      λ n. elim (is_negative-negate (is_negative a) o.1 (omega arith) n) [
        | inl s ↦ s
        | inr big ↦ absurd (omega arith)
      ],
      λ n. elim (is_negative-negate (differ (is_negative a) (is_negative b)) o.0 hq n) [
        | inl s ↦ inl s
        | inr big ↦
            let l = largest_quotient u v o.0 o.1 hu pv d0 big in
            overflows a b small_a small_b l.0 l.1
      ],
    )
