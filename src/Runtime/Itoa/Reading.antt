-- ===== src/Runtime/Itoa/Reading.antt =====
-- What is written reads back as the number.
use teatime_os.Base.{
  ℕ, zero, suc, ◌+◌, ◌-◌, ◌*◌, ◌^◌, ◌≤◌, ◌<◌, ◌≡◌, refl, sym, ap, ◌∙◌, subst, ◌⊎◌, inl, inr, Bool,
  true, false, some, arith, ltb, ◌==◌, if◌then◌else◌, Bool-cases, ==→eq, ◌||◌,
}
use teatime_os.Runtime.Division.{is_negative}
use teatime_os.Runtime.Itoa.{
  Buffer, put, push_digits, reverse_loop, Printed, finish, write_digits, itoau,
}
use teatime_os.Runtime.Itoa.Digits.{
  is_digit, value_of, value_low, Pushed, push_digits-Pushed, flipped, reverse_loop-flips,
}

-- The number of `n` digits from byte `l` on, the highest first.
abbrev pub value_high : ℕ → Buffer → ℕ → ℕ → ℕ
value_high base buf l zero = 0
value_high base buf l (suc n) = base * value_high base buf l n + value_of (buf (l + n))

value_high-flipped :
    (base l n i : ℕ) (o m : Buffer)
    → ((k : ℕ) → k < n → m (l + k) ≡ o (i + n - 1 - k))
    → value_high base m l n ≡ value_low base o i n
value_high-flipped base l zero i o m h = refl
value_high-flipped base l (suc n) i o m h =
    let last : m (l + n) ≡ o i = h n (omega arith) ∙ ap o (omega arith) in
    omega (
      arith,
      ap value_of last,
      ap (λ t. base * t)
          (value_high-flipped base l n (i + 1) o m (λ k g. h k (omega arith) ∙ ap o (omega arith))),
    )

-- A text of `n` digits from byte `l` on that stands for `num`, without a leading 0 unless it is "0",
-- the bytes around it unchanged.
pub record Shows (num base l : ℕ) (buf : Buffer) (n : ℕ) (m : Buffer) : Type 0 where
  pub value : value_high base m l n ≡ num
  pub shown : (k : ℕ) → k < n → (is_digit (m (l + k)) ≡ true) × (value_of (m (l + k)) < base)
  pub ended : m (l + n) ≡ 0
  pub some_digit : 0 < n
  pub leading : 0 < num → 0 < value_of (m l)
  pub alone : num ≡ 0 → n ≡ 1
  pub before : (k : ℕ) → k < l → m k ≡ buf k
  pub behind : (k : ℕ) → l + n < k → m k ≡ buf k

finish-Shows :
    (num base l : ℕ) (buf : Buffer) (n : ℕ) (o : Buffer)
    → 0 < n
    → Pushed num base l buf n o
    → (0 < num → 0 < value_of (o (l + n - 1)))
    → (num ≡ 0 → n ≡ 1)
    → (m : Buffer) × (finish l (some (l + n, o)) ≡ Printed.printed m) × Shows num base l buf n m
unfolding finish
finish-Shows num base l buf n o pos p leads alone = (
  m,
  refl,
  record {
    value = value_high-flipped base l n l o m (λ k h. inside k h) ∙ p.value;
    shown = λ k h.
        subst (λ c. (is_digit c ≡ true) × (value_of c < base)) (sym (inside k h))
          (p.shown (l + n - 1 - k) (omega arith) (omega arith));
    ended = ground arith;
    some_digit = pos;
    leading = λ h. subst (λ c. 0 < value_of c) (sym first) (leads h);
    alone = alone;
    before = λ k h. ground (arith, outside k, p.before k);
    behind = λ k h. ground (arith, outside k, p.behind k);
  },
)
  where
    turned : Buffer
    turned = reverse_loop (l + n) l (l + n - 1) o

    m : Buffer
    m = put turned (l + n) 0

    turned_lem : (k : ℕ) → turned k ≡ flipped l (l + n - 1) o k
    turned_lem k = reverse_loop-flips (l + n) l (l + n - 1) o k (omega arith)

    inside : (k : ℕ) → k < n → m (l + k) ≡ o (l + n - 1 - k)
    inside k h =
        let e : l + (l + n - 1) - (l + k) ≡ l + n - 1 - k = omega arith in
        ground (arith, turned_lem (l + k), e)

    first : m l ≡ o (l + n - 1)
    first = ap m (omega arith) ∙ inside 0 pos ∙ ap o (omega arith)

    outside : (k : ℕ) → (k < l) ⊎ (l + n < k) → m k ≡ o k
    outside k h = ground (arith, turned_lem k)

zero-Pushed : (base l : ℕ) (buf : Buffer) → 0 < base → Pushed 0 base l buf 1 (put buf l 48)
zero-Pushed base l buf h = record {
  value = ground arith;
  before = λ k g. ground arith;
  behind = λ k g. ground arith;
  shown = λ k g e. ground arith;
}

pub write_digits-Shows :
    (num base l : ℕ) (buf : Buffer)
    → 2 ≤ base
    → base ≤ 36
    → num < 2 ^ 32
    → (n : ℕ) × (m : Buffer) × (write_digits 32 num base l buf ≡ Printed.printed m)
      × (n ≤ 32)
      × Shows num base l buf n m
unfolding write_digits
write_digits-Shows num base l buf lo hi small = elim (Bool-cases (num == 0)) [
  | inl e ↦
      let z : num ≡ 0 = ==→eq num 0 e in
      let p : Pushed num base l buf 1 (put buf l 48) =
        subst (λ x. Pushed x base l buf 1 (put buf l 48)) (sym z)
          (zero-Pushed base l buf (omega arith)) in
      let (m, eq, shows) =
        finish-Shows num base l buf 1 (put buf l 48) (omega arith) p
          (λ h. absurd (omega (arith, h, z))) (λ h. refl) in
      (1, m, choose e ∙ eq, omega arith, shows)
  | inr e ↦
      let (n, o, eq, le, p, v) = push_digits-Pushed 32 num base l buf lo hi small small in
      let (m, eq', shows) =
        finish-Shows num base l buf n o (positive n o e p) p v.leading
          (λ h. absurd (ground (arith, h, e))) in
      (n, m, choose e ∙ ap (finish l) eq ∙ eq', le, shows)
]
  where
    choose :
        {b : Bool}
        → (num == 0) ≡ b
        → write_digits 32 num base l buf ≡ (
            if b
            then finish l (some (l + 1, put buf l 48))
            else finish l (push_digits 32 num base l buf))
    choose e =
        ap
          (λ (b : Bool).
            if b
            then finish l (some (l + 1, put buf l 48))
            else finish l (push_digits 32 num base l buf))
          e

    positive : (n : ℕ) (o : Buffer) → (num == 0) ≡ false → Pushed num base l buf n o → 0 < n
    positive zero o e p = absurd (ground (arith, e, p.value))
    positive (suc n) o e p = omega arith

-- For a base from 2 to 36, `itoau` returns within 32 rounds, and its buffer holds the digits of the
-- number in that base and the final NUL: they read back as the number, and no other byte changes.
pub itoau-Shows :
    (num base : ℕ) (buf : Buffer)
    → 2 ≤ base
    → base ≤ 36
    → num < 2 ^ 32
    → (n : ℕ) × (m : Buffer) × (itoau 32 num (some buf) base ≡ Printed.printed m)
      × (n ≤ 32)
      × Shows num base 0 buf n m
unfolding itoau
itoau-Shows num base buf lo hi small =
    let (n, m, eq, le, shows) = write_digits-Shows num base 0 buf lo hi small in
    let valid : (is_negative base || ltb 36 base) ≡ false = ground arith in
    (
      n,
      m,
      ap (λ (b : Bool). if b then Printed.refused else write_digits 32 num base 0 buf) valid ∙ eq,
      le,
      shows,
    )
