-- ===== src/Crypto/Aes.antt =====
-- src/device/wifi/wifi_crypto.c: AES with a 128-bit key. A block is the list of its 16 bytes, and
-- the round keys are the list of their 176 bytes.
use Prim.Native.Nat.{bit_xor}
pub mod Field
mod Back
pub mod Bytes
pub mod RoundTrip
use teatime_os.Base.{
  ℕ, zero, suc, ◌+◌, ◌-◌, ◌*◌, ◌/◌, ◌%◌, List, [], ◌∷◌, ◌++◌, map, take, drop, get_or, ltb, ◌==◌,
  if◌then◌else◌, byte,
}
use teatime_os.Crypto.Tables.{sbox, inv_sbox}

unfoldable pub xtime : ℕ → ℕ
xtime x = bit_xor (x * 2) (x / 128 * 0x1b) % 256

-- The bytes of two regions, one by one.
unfoldable pub xor_bytes : List ℕ → List ℕ → List ℕ
xor_bytes [] k = []
xor_bytes (a ∷ s) [] = a ∷ s
xor_bytes (a ∷ s) (b ∷ k) = bit_xor a b ∷ xor_bytes s k

abbrev pub rcon : List ℕ
rcon = 0x01 ∷ 0x02 ∷ 0x04 ∷ 0x08 ∷ 0x10 ∷ 0x20 ∷ 0x40 ∷ 0x80 ∷ 0x1b ∷ 0x36 ∷ []

abbrev pub substituted : ℕ → ℕ
substituted x = get_or sbox x 0

-- The last word, turned and substituted in front of every fourth.
unfoldable pub schedule_core : List ℕ → ℕ → List ℕ
schedule_core t i =
    if i % 4 == 0
    then bit_xor (substituted (byte t 1)) (get_or rcon (i / 4 - 1) 0)
      ∷ substituted (byte t 2)
      ∷ substituted (byte t 3)
      ∷ substituted (byte t 0)
      ∷ []
    else t

unfoldable pub key_loop : ℕ → ℕ → List ℕ → List ℕ
unfolding schedule_core xor_bytes
key_loop zero i rk = rk
key_loop (suc left) i rk = key_loop left (i + 1) (
    rk
    ++ xor_bytes (take 4 (drop ((i - 4) * 4) rk))
        (schedule_core (take 4 (drop ((i - 1) * 4) rk)) i))

unfoldable pub aes128_init : List ℕ → List ℕ
unfolding key_loop
aes128_init key = key_loop 40 4 (take 16 key)

-- The bytes of a block at the places of a list.
abbrev pub picked : List ℕ → List ℕ → List ℕ
picked s places = map (λ i. get_or s i 0) places

unfoldable pub shift_rows : List ℕ → List ℕ
shift_rows t = picked t (0 ∷ 5 ∷ 10 ∷ 15 ∷ 4 ∷ 9 ∷ 14 ∷ 3 ∷ 8 ∷ 13 ∷ 2 ∷ 7 ∷ 12 ∷ 1 ∷ 6 ∷ 11 ∷ [])

unfoldable pub inv_shift_rows : List ℕ → List ℕ
inv_shift_rows s =
    picked s (0 ∷ 13 ∷ 10 ∷ 7 ∷ 4 ∷ 1 ∷ 14 ∷ 11 ∷ 8 ∷ 5 ∷ 2 ∷ 15 ∷ 12 ∷ 9 ∷ 6 ∷ 3 ∷ [])

abbrev pub mixed0 : ℕ → ℕ → ℕ → ℕ → ℕ
mixed0 a0 a1 a2 a3 = bit_xor (bit_xor (bit_xor (xtime a0) (bit_xor (xtime a1) a1)) a2) a3

abbrev pub mixed1 : ℕ → ℕ → ℕ → ℕ → ℕ
mixed1 a0 a1 a2 a3 = bit_xor (bit_xor (bit_xor a0 (xtime a1)) (bit_xor (xtime a2) a2)) a3

abbrev pub mixed2 : ℕ → ℕ → ℕ → ℕ → ℕ
mixed2 a0 a1 a2 a3 = bit_xor (bit_xor (bit_xor a0 a1) (xtime a2)) (bit_xor (xtime a3) a3)

abbrev pub mixed3 : ℕ → ℕ → ℕ → ℕ → ℕ
mixed3 a0 a1 a2 a3 = bit_xor (bit_xor (bit_xor (bit_xor (xtime a0) a0) a1) a2) (xtime a3)

unfoldable pub mix_columns : List ℕ → List ℕ
unfolding xtime
mix_columns (a ∷ b ∷ c ∷ d ∷ r) =
    mixed0 a b c d ∷ mixed1 a b c d ∷ mixed2 a b c d ∷ mixed3 a b c d ∷ mix_columns r
mix_columns s = s

unfoldable pub mul_loop : ℕ → ℕ → ℕ → ℕ → ℕ
unfolding xtime
mul_loop zero a b p = p
mul_loop (suc left) a b p = mul_loop left (xtime a) (b / 2) (if b % 2 == 1 then bit_xor p a else p)

abbrev pub mul : ℕ → ℕ → ℕ
mul a b = mul_loop 8 a b 0

abbrev pub sum4 : ℕ → ℕ → ℕ → ℕ → ℕ
sum4 a b c d = bit_xor (bit_xor (bit_xor a b) c) d

unfoldable pub inv_mix_columns : List ℕ → List ℕ
unfolding mul_loop
inv_mix_columns (a ∷ b ∷ c ∷ d ∷ r) =
    sum4 (mul a 14) (mul b 11) (mul c 13) (mul d 9)
    ∷ sum4 (mul a 9) (mul b 14) (mul c 11) (mul d 13)
    ∷ sum4 (mul a 13) (mul b 9) (mul c 14) (mul d 11)
    ∷ sum4 (mul a 11) (mul b 13) (mul c 9) (mul d 14)
    ∷ inv_mix_columns r
inv_mix_columns s = s

abbrev pub round_key : List ℕ → ℕ → List ℕ
round_key rk round = take 16 (drop (round * 16) rk)

unfoldable pub encrypt_round : List ℕ → ℕ → List ℕ → List ℕ
unfolding shift_rows mix_columns xor_bytes
encrypt_round rk round s =
    let r = shift_rows (map substituted s) in
    xor_bytes (if ltb round 10 then mix_columns r else r) (round_key rk round)

unfoldable pub encrypt_loop : List ℕ → ℕ → ℕ → List ℕ → List ℕ
unfolding encrypt_round
encrypt_loop rk zero round s = s
encrypt_loop rk (suc left) round s = encrypt_loop rk left (round + 1) (encrypt_round rk round s)

unfoldable pub aes128_encrypt : List ℕ → List ℕ → List ℕ
unfolding encrypt_loop xor_bytes
aes128_encrypt rk block = encrypt_loop rk 10 1 (xor_bytes block (round_key rk 0))

unfoldable pub decrypt_round : List ℕ → ℕ → List ℕ → List ℕ
unfolding inv_shift_rows inv_mix_columns xor_bytes
decrypt_round rk round s =
    let t = xor_bytes (map (λ x. get_or inv_sbox x 0) (inv_shift_rows s)) (round_key rk round) in
    if ltb 0 round then inv_mix_columns t else t

-- `left` rounds, the last of which is round 0.
unfoldable pub decrypt_loop : List ℕ → ℕ → List ℕ → List ℕ
unfolding decrypt_round
decrypt_loop rk zero s = s
decrypt_loop rk (suc round) s = decrypt_loop rk round (decrypt_round rk round s)

unfoldable pub aes128_decrypt : List ℕ → List ℕ → List ℕ
unfolding decrypt_loop xor_bytes
aes128_decrypt rk block = decrypt_loop rk 10 (xor_bytes block (round_key rk 10))
