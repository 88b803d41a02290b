-- ===== src/Net/Checksum.antt =====
-- src/device/net/ipv4.c: the Internet checksum.
pub mod Laws
use mathlib.Core.Option
use teatime_os.Base.{
  ℕ, zero, suc, ◌+◌, ◌-◌, ◌*◌, ◌/◌, ◌%◌, Option, none, some, List, [], ◌∷◌, ◌==◌, if◌then◌else◌,
  add32, ◌>>=◌,
}

-- `sum` is an unsigned int; the bytes are taken two at a time, the low one first.
unfoldable pub checksum_partial : ℕ → List ℕ → ℕ
checksum_partial sum [] = sum
checksum_partial sum (a ∷ []) = add32 sum a
checksum_partial sum (a ∷ b ∷ s) = checksum_partial (add32 sum (a + b * 256)) s

-- `while (sum >> 16)`, in at most so many rounds.
unfoldable pub fold_loop : ℕ → ℕ → Option ℕ
fold_loop zero sum = none
fold_loop (suc rounds) sum =
    let rest = fold_loop rounds (sum % 65536 + sum / 65536) in
    if sum / 65536 == 0 then some sum else rest

unfoldable pub complement : ℕ → Option ℕ
complement sum = do r ← fold_loop 3 sum; some (65535 - r % 65536)

-- `none` would be a loop that does not end; it does not occur, and `checksum` is what it computes.
unfoldable pub checksum : List ℕ → ℕ → ℕ
unfolding complement checksum_partial fold_loop
checksum s start = Option.get_or (complement (checksum_partial start s)) 0
