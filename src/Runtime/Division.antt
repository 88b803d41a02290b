-- ===== src/Runtime/Division.antt =====
-- src/lib/stdlib.c: the division routines that the compiler calls.
pub mod Laws
use teatime_os.Base.{
  ℕ, zero, suc, ◌+◌, ◌-◌, ◌*◌, ◌/◌, ◌%◌, ◌^◌, Bool, true, false, not, leb, if◌then◌else◌,
}

-- `(r << 1) | ((num >> i) & 1)`: the low bit of `r << 1` is 0.
abbrev pub shift_in : ℕ → ℕ → ℕ → ℕ
shift_in num i r = r * 2 % 2 ^ 32 + num / 2 ^ i % 2

-- The loop of `udivmod` for the bits below `rounds`: the quotient and the remainder. `q |= 1ul << i`
-- is a sum, since no bit below `rounds` of the quotient is set.
unfoldable pub udivmod_loop : ℕ → ℕ → ℕ → ℕ → ℕ → ℕ × ℕ
udivmod_loop zero num den q r = (q, r)
udivmod_loop (suc i) num den q r =
    let r' = shift_in num i r in
    udivmod_loop i num den (if leb den r' then q + 2 ^ i else q)
      (if leb den r' then r' - den else r')

unfoldable pub udivmod : ℕ → ℕ → ℕ × ℕ
unfolding udivmod_loop
udivmod num den = udivmod_loop 32 num den 0 0

unfoldable pub udivsi3 : ℕ → ℕ → ℕ
unfolding udivmod
udivsi3 a b = (udivmod a b).0

unfoldable pub umodsi3 : ℕ → ℕ → ℕ
unfolding udivmod
umodsi3 a b = (udivmod a b).1

-- A signed word is its two's complement.
abbrev pub is_negative : ℕ → Bool
is_negative a = leb (2 ^ 31) a

abbrev pub negate : ℕ → ℕ
negate a = (2 ^ 32 - a) % 2 ^ 32

abbrev pub magnitude : ℕ → ℕ
magnitude a = if is_negative a then negate a else a

abbrev pub differ : Bool → Bool → Bool
differ true b = not b
differ false b = b

unfoldable pub divsi3 : ℕ → ℕ → ℕ
unfolding udivmod
divsi3 a b =
    let q = (udivmod (magnitude a) (magnitude b)).0 in
    if differ (is_negative a) (is_negative b) then negate q else q

unfoldable pub modsi3 : ℕ → ℕ → ℕ
unfolding udivmod
modsi3 a b =
    let r = (udivmod (magnitude a) (magnitude b)).1 in if is_negative a then negate r else r
