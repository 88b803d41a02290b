-- ===== src/Runtime/Text.antt =====
-- src/lib/string.c: the routines on NUL-terminated texts. A loop over a text takes the number of
-- rounds that it may run.
pub mod Compare
pub mod Copy
pub mod Find
use teatime_os.Base.{
  ℕ, zero, suc, ◌+◌, ◌≡◌, ◌≢◌, List, [], ◌∷◌, Option, none, some, ◌>>=◌, not, ◌&&◌, ◌||◌, leb, ◌==◌,
  if◌then◌else◌, sub32,
}
use teatime_os.Runtime.Memory.{Memory, memcpy, memcmp}

-- The text of the bytes `s` at address `p`, with its NUL.
abbrev pub IsText : Memory → ℕ → List ℕ → Type 0
IsText m p [] = m p ≡ 0
IsText m p (c ∷ s) = (m p ≡ c) × (c ≢ 0) × IsText m (p + 1) s

unfoldable pub strlen_loop : ℕ → ℕ → ℕ → Memory → Option ℕ
strlen_loop zero n s m = none
strlen_loop (suc rounds) n s m =
    let rest = strlen_loop rounds (n + 1) s m in if m (s + n) == 0 then some n else rest

unfoldable pub strlen : ℕ → ℕ → Memory → Option ℕ
unfolding strlen_loop
strlen rounds s m = strlen_loop rounds 0 s m

unfoldable pub strcpy : ℕ → ℕ → ℕ → Memory → Option Memory
unfolding strlen
strcpy rounds dst src m = do n ← strlen rounds src m; some (memcpy dst src (n + 1) m)

unfoldable pub strcat : ℕ → ℕ → ℕ → Memory → Option Memory
unfolding strlen strcpy
strcat rounds dst src m = do n ← strlen rounds dst m; strcpy rounds (dst + n) src m

-- The loop that strcmp and strcasecmp share, on bytes read through `f`.
unfoldable pub compare_texts : (ℕ → ℕ) → ℕ → ℕ → ℕ → Memory → Option ℕ
compare_texts f zero a b m = none
compare_texts f (suc rounds) a b m =
    let rest = compare_texts f rounds (a + 1) (b + 1) m in
    if not (m a == 0) && (f (m a) == f (m b)) then rest else some (sub32 (f (m a)) (f (m b)))

unfoldable pub strcmp : ℕ → ℕ → ℕ → Memory → Option ℕ
unfolding compare_texts
strcmp rounds a b m = compare_texts (λ c. c) rounds a b m

abbrev pub tolower : ℕ → ℕ
tolower c = if leb 65 c && leb c 90 then c + 32 else c

unfoldable pub strcasecmp : ℕ → ℕ → ℕ → Memory → Option ℕ
unfolding compare_texts
strcasecmp rounds a b m = compare_texts tolower rounds a b m

-- `n` bounds the loop.
unfoldable pub strncasecmp : ℕ → ℕ → ℕ → Memory → ℕ
strncasecmp a b zero m = 0
strncasecmp a b (suc n) m =
    let d = sub32 (tolower (m a)) (tolower (m b)) in
    let rest = strncasecmp (a + 1) (b + 1) n m in if not (d == 0) || (m a == 0) then d else rest

-- A pointer to what was sought, or NULL.
pub data Search : Type 0 where
  running missing : Search
  found : ℕ → Search

unfoldable pub strchr : ℕ → ℕ → ℕ → Memory → Search
strchr zero s c m = Search.running
strchr (suc rounds) s c m =
    let rest = strchr rounds (s + 1) c m in
    if m s == 0
    then (if c == 0 then Search.found s else Search.missing)
    else (if m s == c then Search.found s else rest)

unfoldable pub strstr_loop : ℕ → ℕ → ℕ → ℕ → Memory → Search
unfolding memcmp
strstr_loop zero hay needle n m = Search.running
strstr_loop (suc rounds) hay needle n m =
    let rest = strstr_loop rounds (hay + 1) needle n m in
    if m hay == 0
    then (if n == 0 then Search.found hay else Search.missing)
    else (if memcmp hay needle n m == 0 then Search.found hay else rest)

unfoldable pub strstr : ℕ → ℕ → ℕ → Memory → Search
unfolding strlen strstr_loop
strstr rounds hay needle m = elim (strlen rounds needle m) [
  | none ↦ Search.running
  | some n ↦ strstr_loop rounds hay needle n m
]
