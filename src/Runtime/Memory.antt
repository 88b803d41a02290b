-- ===== src/Runtime/Memory.antt =====
-- src/lib/string.c: memcpy, memmove, memset, memcmp on a memory of bytes.
pub mod Laws
use teatime_os.Base.{ℕ, zero, suc, ◌+◌, ◌-◌, ◌%◌, ◌^◌, ltb, ◌==◌, if◌then◌else◌}

abbrev pub Memory : Type 0
Memory = ℕ → ℕ

abbrev pub store : Memory → ℕ → ℕ → Memory
store m a v k = if a == k then v else m k

unfoldable pub copy_up : ℕ → ℕ → ℕ → ℕ → Memory → Memory
copy_up zero i dst src m = m
copy_up (suc rounds) i dst src m = copy_up rounds (i + 1) dst src (store m (dst + i) (m (src + i)))

unfoldable pub copy_down : ℕ → ℕ → ℕ → Memory → Memory
copy_down zero dst src m = m
copy_down (suc i) dst src m = copy_down i dst src (store m (dst + i) (m (src + i)))

unfoldable pub memcpy : ℕ → ℕ → ℕ → Memory → Memory
unfolding copy_up
memcpy dst src n m = copy_up n 0 dst src m

unfoldable pub memmove : ℕ → ℕ → ℕ → Memory → Memory
unfolding copy_up copy_down
memmove dst src n m = if ltb dst src then copy_up n 0 dst src m else copy_down n dst src m

unfoldable pub fill : ℕ → ℕ → ℕ → ℕ → Memory → Memory
fill zero i dst c m = m
fill (suc rounds) i dst c m = fill rounds (i + 1) dst c (store m (dst + i) (c % 256))

unfoldable pub memset : ℕ → ℕ → ℕ → Memory → Memory
unfolding fill
memset dst c n m = fill n 0 dst c m

-- -1 as a word.
abbrev pub minus_one : ℕ
minus_one = 2 ^ 32 - 1

unfoldable pub compare_from : ℕ → ℕ → ℕ → ℕ → Memory → ℕ
compare_from zero i a b m = 0
compare_from (suc rounds) i a b m =
    let rest = compare_from rounds (i + 1) a b m in
    if m (a + i) == m (b + i) then rest else (if ltb (m (a + i)) (m (b + i)) then minus_one else 1)

unfoldable pub memcmp : ℕ → ℕ → ℕ → Memory → ℕ
unfolding compare_from
memcmp a b n m = compare_from n 0 a b m
