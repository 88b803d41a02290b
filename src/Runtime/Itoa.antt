-- ===== src/Runtime/Itoa.antt =====
-- src/lib/itoa.c: numbers written in a base. A buffer is the memory from its pointer on.
pub mod Digits
pub mod Reading
pub mod Signed
use teatime_os.Base.{
  ℕ, zero, suc, ◌+◌, ◌-◌, ◌||◌, ◌&&◌, Option, none, some, ltb, ◌==◌, if◌then◌else◌,
}
use teatime_os.Runtime.Division.{is_negative, negate, udivsi3, umodsi3}

abbrev pub Buffer : Type 0
Buffer = ℕ → ℕ

abbrev pub put : Buffer → ℕ → ℕ → Buffer
put buf i c j = if i == j then c else buf j

abbrev pub digit : ℕ → ℕ
digit r = if ltb r 10 then 48 + r else 97 + (r - 10)

-- `while (num > 0)`, with the division that the compiler calls on src/lib/stdlib.c for: the number of bytes written and the buffer. Without rounds left, none.
unfoldable pub push_digits : ℕ → ℕ → ℕ → ℕ → Buffer → Option (ℕ × Buffer)
push_digits zero num base i buf = if num == 0 then some (i, buf) else none
push_digits (suc rounds) num base i buf =
    let rest =
      push_digits rounds (udivsi3 num base) base (i + 1) (put buf i (digit (umodsi3 num base))) in
    if num == 0 then some (i, buf) else rest

-- `while (l < r)`: the bytes from `l` to `r` change places.
unfoldable pub reverse_loop : ℕ → ℕ → ℕ → Buffer → Buffer
reverse_loop zero l r buf = buf
reverse_loop (suc rounds) l r buf =
    let rest = reverse_loop rounds (l + 1) (r - 1) (put (put buf l (buf r)) r (buf l)) in
    if ltb l r then rest else buf

-- A call returns 0, or its buffer, or it has not returned after the rounds that it is given.
pub data Printed : Type 0 where
  refused running : Printed
  printed : Buffer → Printed

-- The digits from `l` on are put in order, and the text ends.
unfoldable pub finish : ℕ → Option (ℕ × Buffer) → Printed
unfolding reverse_loop
finish l none = Printed.running
finish l (some (i, buf)) = Printed.printed (put (reverse_loop i l (i - 1) buf) i 0)

unfoldable pub write_digits : ℕ → ℕ → ℕ → ℕ → Buffer → Printed
unfolding push_digits finish
write_digits rounds num base l buf =
    if num == 0
    then finish l (some (l + 1, put buf l 48))
    else finish l (push_digits rounds num base l buf)

unfoldable pub itoau : ℕ → ℕ → Option Buffer → ℕ → Printed
unfolding write_digits
itoau rounds num none base = Printed.refused
itoau rounds num (some buf) base =
    if is_negative base || ltb 36 base then Printed.refused else write_digits rounds num base 0 buf

-- A number that is still negative has no digits.
unfoldable pub write_signed : ℕ → ℕ → ℕ → ℕ → Buffer → Printed
unfolding write_digits finish
write_signed rounds num base l buf =
    if is_negative num then finish l (some (l, buf)) else write_digits rounds num base l buf

unfoldable pub itoa : ℕ → ℕ → Option Buffer → ℕ → Printed
unfolding write_signed
itoa rounds num none base = Printed.refused
itoa rounds num (some buf) base =
    if is_negative base || ltb 36 base
    then Printed.refused
    else (if is_negative num && (base == 10)
        then write_signed rounds (negate num) base 1 (put buf 0 45)
        else write_signed rounds num base 0 buf)
