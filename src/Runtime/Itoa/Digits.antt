-- ===== src/Runtime/Itoa/Digits.antt =====
-- The two loops: digits from the lowest up, and the exchange that puts them in order.
use native.Mathlib.Nat.{
  mod-lt, mod-eq-sub-div-mul, div-mul-le_self, div-le_self, mul-le-mul_left, pow-suc,
}
use teatime_os.Base.{
  ℕ, zero, suc, ◌+◌, ◌-◌, ◌*◌, ◌/◌, ◌%◌, ◌^◌, ◌≤◌, ◌<◌, dec_lt, ◌≡◌, refl, sym, ap, ◌∙◌, subst, inl,
  inr, Bool, true, false, some, arith, leb, ◌&&◌, ltb, ◌==◌, if◌then◌else◌, Bool-cases, ==→eq,
  ltb→lt, ◌||◌,
}
use teatime_os.Runtime.Division.{udivsi3, umodsi3}
use teatime_os.Runtime.Division.Laws.{udivsi3_umodsi3_lem}
use teatime_os.Runtime.Itoa.{Buffer, put, digit, push_digits, reverse_loop}

abbrev pub value_of : ℕ → ℕ
value_of c = if ltb c 58 then c - 48 else c - 87

pub value_of-digit : (r : ℕ) → r < 36 → value_of (digit r) ≡ r
value_of-digit r h = ground arith

-- '0' to '9' and 'a' to 'z'.
abbrev pub is_digit : ℕ → Bool
is_digit c = (leb 48 c && leb c 57) || (leb 97 c && leb c 122)

digit-is_digit : (r : ℕ) → r < 36 → is_digit (digit r) ≡ true
digit-is_digit r h = ground arith

-- The number of `n` digits from byte `i` on, the lowest first.
abbrev pub value_low : ℕ → Buffer → ℕ → ℕ → ℕ
value_low base buf i zero = 0
value_low base buf i (suc n) = value_of (buf i) + base * value_low base buf (i + 1) n

-- What the first loop leaves when it starts at byte `i`.
pub record Pushed (num base i : ℕ) (buf : Buffer) (n : ℕ) (o : Buffer) : Type 0 where
  pub value : value_low base o i n ≡ num
  pub before : (k : ℕ) → k < i → o k ≡ buf k
  pub behind : (k : ℕ) → i + n ≤ k → o k ≡ buf k
  pub shown : (k : ℕ) → i ≤ k → k < i + n → (is_digit (o k) ≡ true) × (value_of (o k) < base)

div-decreases : (rounds num base : ℕ) → 2 ≤ base → num < 2 ^ suc rounds → num / base < 2 ^ rounds
div-decreases rounds num base h lt =
    omega (arith, div-mul-le_self num base, mul-le-mul_left (num / base) h, pow-suc 2 rounds)

value_low-before :
    (base i n : ℕ) (o o' : Buffer)
    → ((k : ℕ) → i ≤ k → o k ≡ o' k)
    → value_low base o i n ≡ value_low base o' i n
value_low-before base i zero o o' h = refl
value_low-before base i (suc n) o o' h = omega (
  arith,
  ap value_of (h i (omega arith)),
  ap (λ t. base * t) (value_low-before base (i + 1) n o o' (λ k g. h k (omega arith))),
)

push_digits-round :
    (rounds num base i : ℕ) (buf : Buffer)
    → num < 2 ^ 32
    → 0 < base
    → (num == 0) ≡ false
    → push_digits (suc rounds) num base i buf
      ≡ push_digits rounds (num / base) base (i + 1) (put buf i (digit (num % base)))
unfolding push_digits
push_digits-round rounds num base i buf small pos h =
    let d = udivsi3_umodsi3_lem num base small pos in
    ap
      (λ (b : Bool).
        if b
        then some (i, buf)
        else push_digits rounds (udivsi3 num base) base (i + 1)
            (put buf i (digit (umodsi3 num base))))
      h
    ∙ ap (λ q. push_digits rounds q base (i + 1) (put buf i (digit (umodsi3 num base)))) d.0
    ∙ ap (λ r. push_digits rounds (num / base) base (i + 1) (put buf i (digit r))) d.1

-- One more digit in front of what the rest of the loop pushes.
Pushed-cons :
    (num base i : ℕ) (buf : Buffer) (n : ℕ) (o : Buffer)
    → 2 ≤ base
    → base ≤ 36
    → Pushed (num / base) base (i + 1) (put buf i (digit (num % base))) n o
    → Pushed num base i buf (suc n) o
Pushed-cons num base i buf n o lo hi p =
    let small : num % base < base = mod-lt num (omega arith) in
    let here : o i ≡ digit (num % base) = ground (arith, p.before i) in
    let shows : value_of (o i) ≡ num % base =
      ap value_of here ∙ value_of-digit (num % base) (omega arith) in
    record {
      value = omega (
        arith,
        shows,
        ap (λ t. base * t) p.value,
        mod-eq-sub-div-mul num base,
        div-mul-le_self num base,
      );
      before = λ k h. ground (arith, p.before k);
      behind = λ k h. ground (arith, p.behind k);
      shown = λ k h g. elim (Bool-cases (i == k)) [
        | inl e ↦
            subst (λ j. (is_digit (o j) ≡ true) × (value_of (o j) < base)) (==→eq i k e)
              (
                ap is_digit here ∙ digit-is_digit (num % base) (omega arith),
                omega (arith, shows, small),
              )
        | inr e ↦ p.shown k (ground arith) (omega arith)
      ];
    }

-- The last byte that is pushed is not a 0, and nothing is pushed of 0.
pub record Leads (num i n : ℕ) (o : Buffer) : Type 0 where
  pub some_digit : 0 < num → 0 < n
  pub leading : 0 < num → 0 < value_of (o (i + n - 1))
  pub nothing : num ≡ 0 → n ≡ 0

nothing-Leads : (num i : ℕ) (o : Buffer) → num ≡ 0 → Leads num i 0 o
nothing-Leads num i o e = record {
  some_digit = λ h. absurd (omega (arith, h, e));
  leading = λ h. absurd (omega (arith, h, e));
  nothing = λ z. refl;
}

Leads-cons :
    (num base i n : ℕ) (buf o : Buffer)
    → 2 ≤ base
    → base ≤ 36
    → (num == 0) ≡ false
    → Pushed (num / base) base (i + 1) (put buf i (digit (num % base))) n o
    → Leads (num / base) (i + 1) n o
    → Leads num i (suc n) o
Leads-cons num base i n buf o lo hi e p v = record {
  some_digit = λ h. omega arith;
  leading = λ h. elim (dec_lt 0 (num / base)) [
    | yes q ↦ subst (λ j. 0 < value_of (o j)) (omega arith) (v.leading q)
    | no q ↦
        let z : num / base ≡ 0 = omega (arith, q) in
        let last : i + suc n - 1 ≡ i = omega (arith, v.nothing z) in
        let small : num % base < base = mod-lt num (omega arith) in
        let here : o i ≡ digit (num % base) = ground (arith, p.before i) in
        let shows : value_of (o i) ≡ num % base =
          ap value_of here ∙ value_of-digit (num % base) (omega arith) in
        let all : num % base ≡ num =
          omega (arith, mod-eq-sub-div-mul num base, ap (λ q. q * base) z) in
        subst (λ j. 0 < value_of (o j)) (sym last) (omega (arith, shows, all, h))
  ];
  nothing = λ z. absurd (ground (arith, z, e));
}

pub push_digits-Pushed :
    (rounds num base i : ℕ) (buf : Buffer)
    → 2 ≤ base
    → base ≤ 36
    → num < 2 ^ rounds
    → num < 2 ^ 32
    → (n : ℕ) × (o : Buffer) × (push_digits rounds num base i buf ≡ some (i + n, o))
      × (n ≤ rounds)
      × Pushed num base i buf n o
      × Leads num i n o
unfolding push_digits
push_digits-Pushed zero num base i buf lo hi lt small =
    let e : num ≡ 0 = omega arith in
    (
      0,
      buf,
      ground (arith, e),
      omega arith,
      record {
        value = sym e;
        before = λ k h. refl;
        behind = λ k h. refl;
        shown = λ k h g. absurd (omega arith);
      },
      nothing-Leads num i buf e,
    )
push_digits-Pushed (suc rounds) num base i buf lo hi lt small = elim (Bool-cases (num == 0)) [
  | inl e ↦ (
    0,
    buf,
    ground (arith, e),
    omega arith,
    record {
      value = sym (==→eq num 0 e);
      before = λ k h. refl;
      behind = λ k h. refl;
      shown = λ k h g. absurd (omega arith);
    },
    nothing-Leads num i buf (==→eq num 0 e),
  )
  | inr e ↦
      let (n, o, eq, le, p, v) =
        push_digits-Pushed rounds (num / base) base (i + 1) (put buf i (digit (num % base))) lo hi
          (div-decreases rounds num base lo lt) (omega (arith, div-le_self num base)) in
      (
        suc n,
        o,
        push_digits-round rounds num base i buf small (omega arith) e
            ∙ eq
            ∙ ap (λ j. some (j, o)) (omega arith),
        omega arith,
        Pushed-cons num base i buf n o lo hi p,
        Leads-cons num base i n buf o lo hi e p v,
      )
]

-- The bytes from `l` to `r` in the opposite order.
abbrev pub flipped : ℕ → ℕ → Buffer → Buffer
flipped l r buf k = if ltb k l || ltb r k then buf k else buf (l + r - k)

flipped-short : (l r : ℕ) (buf : Buffer) (k : ℕ) → r ≤ l → buf k ≡ flipped l r buf k
flipped-short l r buf k h = ground arith

flipped-swap :
    (l r : ℕ) (buf : Buffer) (k : ℕ)
    → l < r
    → flipped (l + 1) (r - 1) (put (put buf l (buf r)) r (buf l)) k ≡ flipped l r buf k
flipped-swap l r buf k h = ground arith

pub reverse_loop-flips :
    (rounds l r : ℕ) (buf : Buffer) (k : ℕ)
    → r ≤ l + 2 * rounds
    → reverse_loop rounds l r buf k ≡ flipped l r buf k
unfolding reverse_loop
reverse_loop-flips zero l r buf k h = flipped-short l r buf k (omega arith)
reverse_loop-flips (suc rounds) l r buf k h = elim (Bool-cases (ltb l r)) [
  | inl e ↦
      let swapped : Buffer = put (put buf l (buf r)) r (buf l) in
      ap (λ (b : Bool). (if b then reverse_loop rounds (l + 1) (r - 1) swapped else buf) k) e
      ∙ reverse_loop-flips rounds (l + 1) (r - 1) swapped k (omega arith)
      ∙ flipped-swap l r buf k (ltb→lt l r e)
  | inr e ↦
      ap
        (λ (b : Bool).
          (if b
              then reverse_loop rounds (l + 1) (r - 1) (put (put buf l (buf r)) r (buf l))
              else buf)
            k)
        e
      ∙ flipped-short l r buf k (ground arith)
]
