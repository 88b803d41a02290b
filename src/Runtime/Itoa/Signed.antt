-- ===== src/Runtime/Itoa/Signed.antt =====
-- Signed numbers, and the calls of `itoau` and `itoa` that go wrong.
use teatime_os.Base.{
  ℕ, zero, suc, ◌+◌, ◌^◌, ◌≤◌, ◌<◌, ◌≡◌, ◌≢◌, refl, inl, inr, true, false, Option, none, some,
  arith, ltb, ◌==◌, if◌then◌else◌, Bool-cases, ◌||◌, ne→==,
}
use teatime_os.Runtime.Division.{is_negative, negate, magnitude, udivsi3, umodsi3}
use teatime_os.Runtime.Division.Laws.{udivsi3-zero, udivsi3_umodsi3_lem}
use teatime_os.Runtime.Itoa.{
  Buffer, put, digit, push_digits, reverse_loop, Printed, finish, write_digits, itoau, write_signed,
  itoa,
}
use teatime_os.Runtime.Itoa.Reading.{Shows, write_digits-Shows}

-- A number that is not negative is written by `itoa` as by `itoau`, in every base.
pub itoa-itoau :
    (rounds num base : ℕ) (buf : Option Buffer)
    → is_negative num ≡ false
    → itoa rounds num buf base ≡ itoau rounds num buf base
unfolding itoau itoa write_signed
itoa-itoau rounds num base none h = refl
itoa-itoau rounds num base (some buf) h = rw h refl

-- In base 10 `itoa` returns within 32 rounds for every number but INT_MIN: a minus sign if the number
-- is negative, then the decimal digits of its magnitude, without a leading 0 unless it is 0, and the
-- final NUL, and no other byte changes.
pub itoa-Shows :
    (num : ℕ) (buf : Buffer)
    → num < 2 ^ 32
    → num ≢ 2 ^ 31
    → (n : ℕ) × (m : Buffer) × (itoa 32 num (some buf) 10 ≡ Printed.printed m)
      × (n ≤ 32)
      × Shows
          (magnitude num)
          10
          (if is_negative num then 1 else 0)
          (if is_negative num then put buf 0 45 else buf)
          n
          m
unfolding itoa write_signed
itoa-Shows num buf small h = elim (Bool-cases (is_negative num)) [
  | inl e ↦
      let positive : is_negative (negate num) ≡ false = ground (arith, h) in
      rw (e, positive)
        (write_digits-Shows (negate num) 10 1 (put buf 0 45) (omega arith) (omega arith)
          (ground arith))
  | inr e ↦ rw e (write_digits-Shows num 10 0 buf (omega arith) (omega arith) small)
]

-- In a base other than 10 `itoa` writes the empty text for every negative number.
pub itoa_empty :
    (rounds num base : ℕ) (buf : Buffer)
    → base ≤ 36
    → base ≢ 10
    → is_negative num ≡ true
    → itoa rounds num (some buf) base ≡ Printed.printed (put buf 0 0)
unfolding itoa write_signed finish reverse_loop
itoa_empty rounds num base buf hi ten h =
    let valid : (is_negative base || ltb 36 base) ≡ false = ground arith in
    rw (valid, h, ne→== base 10 ten) refl

still_positive :
    (num base : ℕ)
    → 0 < num
    → num < 2 ^ 32
    → base < 2
    → (0 < udivsi3 num base) × (udivsi3 num base < 2 ^ 32)
still_positive num zero pos small h =
    (omega (arith, udivsi3-zero num), omega (arith, udivsi3-zero num))
still_positive num (suc zero) pos small h =
    let d = udivsi3_umodsi3_lem num 1 small (omega arith) in
    (omega (arith, d.0), omega (arith, d.0))
still_positive num (suc (suc base)) pos small h = absurd (omega arith)

push_digits-none :
    (rounds num base i : ℕ) (buf : Buffer)
    → 0 < num
    → num < 2 ^ 32
    → base < 2
    → push_digits rounds num base i buf ≡ none
unfolding push_digits
push_digits-none zero num base i buf pos small h = ground arith
push_digits-none (suc rounds) num base i buf pos small h =
    let next = still_positive num base pos small h in
    let rest =
      push_digits-none rounds (udivsi3 num base) base (i + 1) (put buf i (digit (umodsi3 num base)))
        next.0 next.1 h in
    ground (arith, rest)

-- In base 0 and in base 1, which `itoau` lets pass, it never returns for a number above 0: however
-- many rounds it is given, it still runs.
pub itoau_never_returns :
    (rounds num base : ℕ) (buf : Buffer)
    → 0 < num
    → num < 2 ^ 32
    → base < 2
    → itoau rounds num (some buf) base ≡ Printed.running
unfolding itoau write_digits finish
itoau_never_returns rounds num base buf pos small h =
    let valid : (is_negative base || ltb 36 base) ≡ false = ground arith in
    let nonzero : (num == 0) ≡ false = ground arith in
    rw (valid, nonzero, push_digits-none rounds num base 0 buf pos small h) refl
