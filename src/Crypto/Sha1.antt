-- ===== src/Crypto/Sha1.antt =====
-- src/device/wifi/wifi_crypto.c: SHA-1.
pub mod Streaming
use Prim.Native.Nat.{bit_and, bit_or, bit_xor}
use teatime_os.Base.{
  ℕ, zero, suc, ◌+◌, ◌-◌, ◌*◌, ◌/◌, ◌%◌, ◌^◌, Bool, true, false, List, [], ◌∷◌, ◌++◌, reverse,
  length, take, drop, get_or, ltb, ◌==◌, if◌then◌else◌, word32, add32,
}

abbrev pub rol : ℕ → ℕ → ℕ
rol x n = bit_or (x * 2 ^ n % 2 ^ 32) (x / 2 ^ (32 - n))

-- The five words `h`, and the five variables of a block.
pub record Words5 : Type 0 where
  pub a : ℕ
  pub b : ℕ
  pub c : ℕ
  pub d : ℕ
  pub e : ℕ

-- `buf` holds the `buflen` bytes that wait for their block to be full.
pub record Sha1Ctx : Type 0 where
  pub h : Words5
  pub len : ℕ
  pub buf : List ℕ

-- The first sixteen words, the last first.
unfoldable pub first_words : ℕ → ℕ → List ℕ → List ℕ → List ℕ
first_words zero i p w = w
first_words (suc left) i p w = first_words left (i + 1) p (word32 p (i * 4) ∷ w)

unfoldable pub more_words : ℕ → List ℕ → List ℕ
more_words zero w = w
more_words (suc left) w = more_words left (
    rol (bit_xor (bit_xor (bit_xor (get_or w 2 0) (get_or w 7 0)) (get_or w 13 0)) (get_or w 15 0))
      1
    ∷ w)

abbrev complement32 : ℕ → ℕ
complement32 x = 2 ^ 32 - 1 - x

-- `f` and `k` of round `i`.
unfoldable pub choice : ℕ → ℕ → ℕ → ℕ → ℕ × ℕ
choice i b c d =
    if ltb i 20
    then (bit_or (bit_and b c) (bit_and (complement32 b) d), 0x5a827999)
    else if ltb i 40
    then (bit_xor (bit_xor b c) d, 0x6ed9eba1)
    else if ltb i 60
    then (bit_or (bit_or (bit_and b c) (bit_and b d)) (bit_and c d), 0x8f1bbcdc)
    else (bit_xor (bit_xor b c) d, 0xca62c1d6)

unfoldable pub block_rounds : ℕ → List ℕ → Words5 → Words5
unfolding choice
block_rounds i [] v = v
block_rounds i (w ∷ ws) v =
    let (f, k) = choice i v.b v.c v.d in
    let t = (rol v.a 5 + f + v.e + k + w) % 2 ^ 32 in
    block_rounds (i + 1) ws (record { e = v.d; d = v.c; c = rol v.b 30; b = v.a; a = t })

unfoldable pub sha1_block : Words5 → List ℕ → Words5
unfolding first_words more_words block_rounds
sha1_block h p =
    let v = block_rounds 0 (reverse (more_words 64 (first_words 16 0 p []))) h in
    record {
      a = add32 h.a v.a;
      b = add32 h.b v.b;
      c = add32 h.c v.c;
      d = add32 h.d v.d;
      e = add32 h.e v.e;
    }

unfoldable pub sha1_init : Sha1Ctx
sha1_init = record {
  h = record { a = 0x67452301; b = 0xefcdab89; c = 0x98badcfe; d = 0x10325476; e = 0xc3d2e1f0 };
  len = 0;
  buf = [];
}

abbrev pub clipped : ℕ → ℕ → ℕ
clipped a b = if ltb b a then b else a

-- A full block is hashed, and the buffer starts over.
unfoldable pub flushed : Sha1Ctx → Sha1Ctx
unfolding sha1_block
flushed c = if length c.buf == 64 then record c { h = sha1_block c.h c.buf; buf = [] } else c

-- `while (n)`, in at most so many rounds.
unfoldable pub update_loop : ℕ → Sha1Ctx → List ℕ → Sha1Ctx
unfolding flushed
update_loop zero c bytes = c
update_loop (suc rounds) c [] = c
update_loop (suc rounds) c (x ∷ bytes) =
    let n = clipped (64 - length c.buf) (length (x ∷ bytes)) in
    update_loop rounds (flushed (record c { buf = c.buf ++ take n (x ∷ bytes) }))
      (drop n (x ∷ bytes))

unfoldable pub sha1_update : Sha1Ctx → List ℕ → Sha1Ctx
unfolding update_loop
sha1_update c bytes =
    update_loop (length bytes) (record c { len = add32 c.len (length bytes) }) bytes

-- `while (c->buflen != 56)`, in at most so many rounds.
unfoldable pub pad_loop : ℕ → Sha1Ctx → Sha1Ctx
unfolding sha1_update
pad_loop zero c = c
pad_loop (suc rounds) c = elim (length c.buf == 56) [
  | true ↦ c
  | false ↦ pad_loop rounds (sha1_update c (0 ∷ []))
]

abbrev pub bytes32 : ℕ → List ℕ
bytes32 v = (v / 16777216 % 256) ∷ (v / 65536 % 256) ∷ (v / 256 % 256) ∷ (v % 256) ∷ []

unfoldable pub sha1_final : Sha1Ctx → List ℕ
unfolding pad_loop sha1_update
sha1_final c =
    let padded = pad_loop 64 (sha1_update c (0x80 ∷ [])) in
    let h = (sha1_update padded (bytes32 (c.len / 2 ^ 29) ++ bytes32 (c.len * 8 % 2 ^ 32))).h in
    bytes32 h.a ++ bytes32 h.b ++ bytes32 h.c ++ bytes32 h.d ++ bytes32 h.e

unfoldable pub sha1 : List ℕ → List ℕ
unfolding sha1_init sha1_update sha1_final
sha1 bytes = sha1_final (sha1_update sha1_init bytes)
