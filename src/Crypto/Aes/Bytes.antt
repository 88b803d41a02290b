-- ===== src/Crypto/Aes/Bytes.antt =====
-- The steps of AES keep blocks of bytes.
use Prim.Native.Nat.{bit_xor}
use teatime_os.Base.{
  ℕ, zero, suc, ◌+◌, ◌-◌, ◌*◌, ◌/◌, ◌%◌, ◌<◌, ◌≡◌, refl, ap, inl, inr, true, List, [], ◌∷◌, ◌++◌,
  map, length, take, drop, get_or, AreBytes, arith, ◌==◌, ltb, ltb→lt, Bool-cases, bit_xor-byte,
  byte,
}
use teatime_os.Crypto.Aes.{
  xtime, xor_bytes, substituted, schedule_core, key_loop, aes128_init, shift_rows, mix_columns,
  rcon, picked,
}
use teatime_os.Crypto.Aes.Field.{passes, passes-at, xtime-byte, pair-byte, sum4-byte}

pub AreBytes-append : (a b : List ℕ) → AreBytes a → AreBytes b → AreBytes (a ++ b)
AreBytes-append [] b h k = k
AreBytes-append (x ∷ a) b h k = (h.0, AreBytes-append a b h.1 k)

pub AreBytes-take : (n : ℕ) (s : List ℕ) → AreBytes s → AreBytes (take n s)
AreBytes-take zero s h = tt
AreBytes-take (suc n) [] h = tt
AreBytes-take (suc n) (x ∷ s) h = (h.0, AreBytes-take n s h.1)

pub AreBytes-drop : (n : ℕ) (s : List ℕ) → AreBytes s → AreBytes (drop n s)
AreBytes-drop zero s h = h
AreBytes-drop (suc n) [] h = tt
AreBytes-drop (suc n) (x ∷ s) h = AreBytes-drop n s h.1

pub get_or-byte : (s : List ℕ) (i : ℕ) → AreBytes s → get_or s i 0 < 256
get_or-byte [] i h = omega arith
get_or-byte (x ∷ s) zero h = h.0
get_or-byte (x ∷ s) (suc i) h = get_or-byte s i h.1

pub AreBytes-xor_bytes : (s k : List ℕ) → AreBytes s → AreBytes k → AreBytes (xor_bytes s k)
unfolding xor_bytes
AreBytes-xor_bytes [] k h g = tt
AreBytes-xor_bytes (a ∷ s) [] h g = h
AreBytes-xor_bytes (a ∷ s) (b ∷ k) h g = (bit_xor-byte a b h.0 g.0, AreBytes-xor_bytes s k h.1 g.1)

pub length-xor_bytes : (s k : List ℕ) → length (xor_bytes s k) ≡ length s
unfolding xor_bytes
length-xor_bytes [] k = refl
length-xor_bytes (a ∷ s) [] = refl
length-xor_bytes (a ∷ s) (b ∷ k) = ap suc (length-xor_bytes s k)

substituted_table : passes (λ x. ltb (substituted x) 256) 256 ≡ true
unfolding passes
substituted_table = refl

pub substituted-byte : (x : ℕ) → x < 256 → substituted x < 256
substituted-byte x h =
    ltb→lt (substituted x) 256 (passes-at (λ x. ltb (substituted x) 256) 256 x h substituted_table)

pub AreBytes-substituted : (s : List ℕ) → AreBytes s → AreBytes (map substituted s)
AreBytes-substituted [] h = tt
AreBytes-substituted (x ∷ s) h = (substituted-byte x h.0, AreBytes-substituted s h.1)

pub AreBytes-picked : (s places : List ℕ) → AreBytes s → AreBytes (picked s places)
AreBytes-picked s [] h = tt
AreBytes-picked s (i ∷ places) h = (get_or-byte s i h, AreBytes-picked s places h)

pub AreBytes-shift_rows : (s : List ℕ) → AreBytes s → AreBytes (shift_rows s)
unfolding shift_rows
AreBytes-shift_rows s h =
    AreBytes-picked s (0 ∷ 5 ∷ 10 ∷ 15 ∷ 4 ∷ 9 ∷ 14 ∷ 3 ∷ 8 ∷ 13 ∷ 2 ∷ 7 ∷ 12 ∷ 1 ∷ 6 ∷ 11 ∷ []) h

pub AreBytes-mix_columns : (s : List ℕ) → AreBytes s → AreBytes (mix_columns s)
unfolding mix_columns
AreBytes-mix_columns [] h = h
AreBytes-mix_columns (a ∷ []) h = h
AreBytes-mix_columns (a ∷ b ∷ []) h = h
AreBytes-mix_columns (a ∷ b ∷ c ∷ []) h = h
AreBytes-mix_columns (a ∷ b ∷ c ∷ d ∷ r) (p, (q, (s, (t, more)))) = (
  sum4-byte (xtime a) (bit_xor (xtime b) b) c d (xtime-byte a) (pair-byte b q) s t,
  (
    sum4-byte a (xtime b) (bit_xor (xtime c) c) d p (xtime-byte b) (pair-byte c s) t,
    (
      sum4-byte a b (xtime c) (bit_xor (xtime d) d) p q (xtime-byte c) (pair-byte d t),
      (
        sum4-byte (bit_xor (xtime a) a) b c (xtime d) (pair-byte a p) q s (xtime-byte d),
        AreBytes-mix_columns r more,
      ),
    ),
  ),
)

pub length-mix_columns : (s : List ℕ) → length (mix_columns s) ≡ length s
unfolding mix_columns
length-mix_columns [] = refl
length-mix_columns (a ∷ []) = refl
length-mix_columns (a ∷ b ∷ []) = refl
length-mix_columns (a ∷ b ∷ c ∷ []) = refl
length-mix_columns (a ∷ b ∷ c ∷ d ∷ r) = ap (λ n. suc (suc (suc (suc n)))) (length-mix_columns r)

AreBytes-schedule_core : (t : List ℕ) (i : ℕ) → AreBytes t → AreBytes (schedule_core t i)
unfolding schedule_core
AreBytes-schedule_core t i h = elim (Bool-cases (i % 4 == 0)) [
  | inl e ↦ rw e (
    bit_xor-byte (substituted (byte t 1)) (get_or rcon (i / 4 - 1) 0) (of_byte 1)
        (get_or-byte rcon (i / 4 - 1) (omega arith)),
    (of_byte 2, (of_byte 3, (of_byte 0, tt))),
  )
  | inr e ↦ rw e h
]
  where
    of_byte : (k : ℕ) → substituted (byte t k) < 256
    of_byte k = substituted-byte (byte t k) (get_or-byte t k h)

AreBytes-key_loop : (left i : ℕ) (rk : List ℕ) → AreBytes rk → AreBytes (key_loop left i rk)
unfolding key_loop
AreBytes-key_loop zero i rk h = h
AreBytes-key_loop (suc left) i rk h = AreBytes-key_loop left (i + 1) _ (
    AreBytes-append rk _ h (
      AreBytes-xor_bytes _ _ (AreBytes-take 4 _ (AreBytes-drop ((i - 4) * 4) rk h))
        (AreBytes-schedule_core _ i (AreBytes-take 4 _ (AreBytes-drop ((i - 1) * 4) rk h)))))

pub AreBytes-aes128_init : (key : List ℕ) → AreBytes key → AreBytes (aes128_init key)
unfolding aes128_init
AreBytes-aes128_init key h = AreBytes-key_loop 40 4 (take 16 key) (AreBytes-take 16 key h)
