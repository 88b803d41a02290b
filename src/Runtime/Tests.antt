-- ===== src/Runtime/Tests.antt =====
-- Runs of the library routines, and their theorems at concrete inputs.
use teatime_os.Base.{
  ℕ, ◌+◌, ◌-◌, ◌/◌, ◌%◌, ◌^◌, ◌≤◌, ◌<◌, ◌≡◌, ◌⊎◌, refl, inl, List, [], ◌∷◌, ◌++◌, get_or, some,
  arith,
}
use teatime_os.Runtime.Division.{udivsi3, umodsi3, divsi3, modsi3}
use teatime_os.Runtime.Division.Laws.{udivsi3_umodsi3_lem}
use teatime_os.Runtime.Itoa.{Buffer, put, Printed, itoau, itoa}
use teatime_os.Runtime.Itoa.Reading.{Shows}
use teatime_os.Runtime.Itoa.Signed.{itoa-Shows, itoau_never_returns}
use teatime_os.Runtime.Memory.{Memory, memcpy, memmove}
use teatime_os.Runtime.Memory.Laws.{Copied, memmove-Copied}
use teatime_os.Runtime.Text.{IsText, strcat, strstr, Search}
use teatime_os.Runtime.Text.Copy.{strcat-IsText}
use teatime_os.Runtime.Text.Find.{Located, strstr-Located}

divsi3_run : divsi3 (2 ^ 32 - 7) 2 ≡ 2 ^ 32 - 3
unfolding divsi3
divsi3_run = refl

modsi3_run : modsi3 (2 ^ 32 - 7) 2 ≡ 2 ^ 32 - 1
unfolding modsi3
modsi3_run = refl

abbrev blank : Buffer
blank = λ _. 88

abbrev byte : ℕ → Printed → ℕ
byte k (Printed.printed m) = m k
byte k _ = 0

itoau_run :
    (byte 0 (itoau 32 255 (some blank) 16) ≡ 102) × (byte 2 (itoau 32 255 (some blank) 16) ≡ 0)
unfolding itoau udivsi3 umodsi3
itoau_run = (refl, refl)

-- INT_MIN in base 10 is written as a minus sign alone.
itoa_run :
    (byte 0 (itoa 32 (2 ^ 31) (some blank) 10) ≡ 45)
    × (byte 1 (itoa 32 (2 ^ 31) (some blank) 10) ≡ 0)
unfolding itoa
itoa_run = (refl, refl)

udivsi3-umodsi3_example : (udivsi3 100 7 ≡ 100 / 7) × (umodsi3 100 7 ≡ 100 % 7)
udivsi3-umodsi3_example = udivsi3_umodsi3_lem 100 7 (omega arith) (omega arith)

itoa-Shows_example :
    (n : ℕ) × (m : Buffer) × (itoa 32 (2 ^ 32 - 40) (some blank) 10 ≡ Printed.printed m)
    × (n ≤ 32)
    × Shows 40 10 1 (put blank 0 45) n m
itoa-Shows_example = itoa-Shows (2 ^ 32 - 40) blank (omega arith) (omega arith)

itoau_never_returns_example : itoau 1000 7 (some blank) 1 ≡ Printed.running
itoau_never_returns_example =
    itoau_never_returns 1000 7 1 blank (omega arith) (omega arith) (omega arith)

abbrev numbered : Memory
numbered = λ k. k

memmove-Copied_example :
    Copied 12 10 5 numbered (memmove 12 10 5 numbered)
    × ((12 ≤ 10) ⊎ (10 + 5 ≤ 12) → Copied 12 10 5 numbered (memcpy 12 10 5 numbered))
memmove-Copied_example = memmove-Copied 12 10 5 numbered

-- "tea" at 0, "TEA" at 4, "ea" at 8.
abbrev brewed : Memory
brewed k = get_or (116 ∷ 101 ∷ 97 ∷ 0 ∷ 84 ∷ 69 ∷ 65 ∷ 0 ∷ 101 ∷ 97 ∷ []) k 0

abbrev tea : List ℕ
tea = 116 ∷ 101 ∷ 97 ∷ []

abbrev upper_tea : List ℕ
upper_tea = 84 ∷ 69 ∷ 65 ∷ []

abbrev tail : List ℕ
tail = 101 ∷ 97 ∷ []

tea-IsText : IsText brewed 0 tea
tea-IsText = (refl, omega arith, (refl, omega arith, (refl, omega arith, refl)))

upper-IsText : IsText brewed 4 upper_tea
upper-IsText = (refl, omega arith, (refl, omega arith, (refl, omega arith, refl)))

tail-IsText : IsText brewed 8 tail
tail-IsText = (refl, omega arith, (refl, omega arith, refl))

strstr_run : strstr 9 0 8 brewed ≡ Search.found 1
unfolding strstr
strstr_run = refl

strcat-IsText_example :
    (m : Memory) × (strcat 9 8 0 brewed ≡ some m)
    × IsText m 8 (tail ++ tea)
    × ((k : ℕ) → (k < 8 + 2) ⊎ (8 + 2 + 3 < k) → m k ≡ brewed k)
strcat-IsText_example =
    strcat-IsText 9 8 0 tail tea brewed tail-IsText tea-IsText (omega arith) (omega arith)
      (inl (omega arith))

strstr-Located_example : Located brewed 0 3 8 2 (strstr 9 0 8 brewed)
strstr-Located_example =
    strstr-Located 9 0 8 tea tail brewed tea-IsText tail-IsText (omega arith) (omega arith)
