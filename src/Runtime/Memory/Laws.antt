-- ===== src/Runtime/Memory/Laws.antt =====
-- What the copies leave in memory, overlapping or not, and what memcmp finds.
use teatime_os.Base.{
  ℕ, zero, suc, ◌+◌, ◌-◌, ◌≤◌, ◌<◌, ◌≡◌, ◌↔◌, refl, sym, ap, ◌∙◌, ◌⊎◌, inl, inr, ◌&&◌, arith, ltb,
  leb, ◌==◌, if◌then◌else◌, Bool-cases, ==→eq,
}
use teatime_os.Runtime.Memory.{
  Memory, store, copy_up, copy_down, memcpy, memmove, compare_from, memcmp,
}

-- `n` bytes from `src` on now stand at `dst` too, and no other byte has changed.
abbrev pub Copied : ℕ → ℕ → ℕ → Memory → Memory → Type 0
Copied dst src n m m' =
    (k : ℕ) → m' k ≡ (if leb dst k && ltb k (dst + n) then m (src + (k - dst)) else m k)

-- One byte in front of what the rest of an upward copy brings.
copy_up-first :
    (rounds i dst src : ℕ) (m : Memory) (k : ℕ)
    → (dst ≤ src) ⊎ (src + i + suc rounds ≤ dst + i)
    → let m' = store m (dst + i) (m (src + i)) in
      (if leb (dst + (i + 1)) k && ltb k (dst + (i + 1) + rounds)
        then m' (src + (k - dst))
        else m' k)
      ≡ (if leb (dst + i) k && ltb k (dst + i + suc rounds) then m (src + (k - dst)) else m k)
copy_up-first rounds i dst src m k h = elim (Bool-cases (dst + i == k)) [
  | inl e ↦
      let same : src + (k - dst) ≡ src + i = omega (arith, ==→eq (dst + i) k e) in
      ground (arith, ap m same)
  | inr e ↦ ground arith
]

copy_up_lem :
    (rounds i dst src : ℕ) (m : Memory)
    → (dst ≤ src) ⊎ (src + i + rounds ≤ dst + i)
    → (k : ℕ)
    → copy_up rounds i dst src m k
      ≡ (if leb (dst + i) k && ltb k (dst + i + rounds) then m (src + (k - dst)) else m k)
unfolding copy_up
copy_up_lem zero i dst src m h k = ground arith
copy_up_lem (suc rounds) i dst src m h k =
    copy_up_lem rounds (i + 1) dst src (store m (dst + i) (m (src + i))) (ground arith) k
    ∙ copy_up-first rounds i dst src m k h

copy_down-first :
    (n dst src : ℕ) (m : Memory) (k : ℕ)
    → src ≤ dst
    → let m' = store m (dst + n) (m (src + n)) in
      (if leb dst k && ltb k (dst + n) then m' (src + (k - dst)) else m' k)
      ≡ (if leb dst k && ltb k (dst + suc n) then m (src + (k - dst)) else m k)
copy_down-first n dst src m k h = elim (Bool-cases (dst + n == k)) [
  | inl e ↦
      let same : src + (k - dst) ≡ src + n = omega (arith, ==→eq (dst + n) k e) in
      ground (arith, ap m same)
  | inr e ↦ ground arith
]

copy_down_lem :
    (n dst src : ℕ) (m : Memory) → src ≤ dst → Copied dst src n m (copy_down n dst src m)
unfolding copy_down
copy_down_lem zero dst src m h k = ground arith
copy_down_lem (suc n) dst src m h k =
    copy_down_lem n dst src (store m (dst + n) (m (src + n))) h k ∙ copy_down-first n dst src m k h

copy_up-Copied :
    (dst src n : ℕ) (m : Memory)
    → (dst ≤ src) ⊎ (src + n ≤ dst)
    → Copied dst src n m (copy_up n 0 dst src m)
copy_up-Copied dst src n m h k = ground (arith, copy_up_lem n 0 dst src m (ground arith) k)

-- `memmove` copies whole regions, however they overlap; `memcpy` does if the destination does not
-- begin inside the source behind its first byte.
pub memmove-Copied :
    (dst src n : ℕ) (m : Memory)
    → Copied dst src n m (memmove dst src n m)
      × ((dst ≤ src) ⊎ (src + n ≤ dst) → Copied dst src n m (memcpy dst src n m))
unfolding memmove memcpy
memmove-Copied dst src n m = (
  elim (Bool-cases (ltb dst src)) [
    | inl e ↦ rw e (copy_up-Copied dst src n m (inl (ground arith)))
    | inr e ↦ rw e (copy_down_lem n dst src m (ground arith))
  ],
  copy_up-Copied dst src n m,
)

-- The first `n` bytes are the same.
abbrev pub Same : ℕ → ℕ → ℕ → Memory → Type 0
Same a b n m = (k : ℕ) → k < n → m (a + k) ≡ m (b + k)

pub compare_from-zero :
    (rounds i a b : ℕ) (m : Memory)
    → compare_from rounds i a b m ≡ 0
    → (k : ℕ) → i ≤ k
    → k < i + rounds
    → m (a + k) ≡ m (b + k)
unfolding compare_from
compare_from-zero zero i a b m h k lo hi = absurd (omega arith)
compare_from-zero (suc rounds) i a b m h k lo hi = elim (Bool-cases (i == k)) [
  | inl e ↦
      let same : m (a + i) ≡ m (b + i) = ground arith in
      let at : i ≡ k = ==→eq i k e in ap (λ j. m (a + j)) (sym at) ∙ same ∙ ap (λ j. m (b + j)) at
  | inr e ↦ compare_from-zero rounds (i + 1) a b m (ground arith) k (ground arith) (omega arith)
]

pub compare_from-same :
    (rounds i a b : ℕ) (m : Memory)
    → ((k : ℕ) → i ≤ k → k < i + rounds → m (a + k) ≡ m (b + k))
    → compare_from rounds i a b m ≡ 0
unfolding compare_from
compare_from-same zero i a b m h = refl
compare_from-same (suc rounds) i a b m h = ground (
  arith,
  h i (omega arith) (omega arith),
  compare_from-same rounds (i + 1) a b m (λ k lo hi. h k (omega arith) (omega arith)),
)

-- `memcmp` is 0 exactly if the two regions hold the same bytes.
pub memcmp_zero : (a b n : ℕ) (m : Memory) → (memcmp a b n m ≡ 0) ↔ Same a b n m
unfolding memcmp
memcmp_zero a b n m = (
  λ h k lt. compare_from-zero n 0 a b m h k (omega arith) (omega arith),
  λ h. compare_from-same n 0 a b m (λ k lo hi. h k (omega arith)),
)
