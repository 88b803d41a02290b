-- ===== src/Crypto/Hmac/Laws.antt =====
-- HMAC is what its standard says, and the derived keys have the length that is asked for.
use Prim.Native.Nat.{bit_xor}
use teatime_os.Base.{
  ℕ, zero, suc, ◌+◌, ◌-◌, ◌≤◌, ◌<◌, ◌≡◌, refl, ap, ◌∙◌, List, [], ◌∷◌, ◌++◌, map, true, leb,
  if◌then◌else◌, length, take, Bool-cases, inl, inr, false, arith, ltb, length-append, length-take,
}
use teatime_os.Crypto.Aes.{xor_bytes}
use teatime_os.Crypto.Aes.Bytes.{length-xor_bytes}
use teatime_os.Crypto.Sha1.{bytes32, clipped, sha1_init, sha1_update, sha1_final, sha1}
use teatime_os.Crypto.Sha1.Streaming.{HasRoom, sha1_update-append}
use teatime_os.Crypto.Hmac
use teatime_os.Crypto.Hmac.{
  hmac_key, hmac_sha1, iterate, pbkdf2_loop, pbkdf2_sha1, prf_loop, sha1_prf, wpa2_pmk,
}

sha1_init-HasRoom : HasRoom sha1_init
unfolding sha1_init
sha1_init-HasRoom = record { room = omega arith }

hash_of_two : (s t : List ℕ) → sha1_final (sha1_update (sha1_update sha1_init s) t) ≡ sha1 (s ++ t)
unfolding sha1
hash_of_two s t = ap sha1_final (sha1_update-append sha1_init s t sha1_init-HasRoom)

-- HMAC as RFC 2104 defines it: a key longer than a block is hashed, and the key or its hash stands in
-- front of as many zeros as a block of 64 bytes has room for.
abbrev pub nulls : ℕ → List ℕ
nulls zero = []
nulls (suc n) = 0 ∷ nulls n

abbrev pub block_key : List ℕ → List ℕ
block_key key = if leb (length key) 64 then key ++ nulls (64 - length key) else sha1 key ++ nulls 44

abbrev pub rfc2104 : List ℕ → List ℕ → List ℕ
rfc2104 key msg =
    let k = block_key key in
    sha1 (map (λ b. bit_xor b 0x5c) k ++ sha1 (map (λ b. bit_xor b 0x36) k ++ msg))

pub length-sha1 : (s : List ℕ) → length (sha1 s) ≡ 20
unfolding sha1 sha1_final
length-sha1 s = refl

length-zeros : (n : ℕ) → length (Hmac.zeros n) ≡ n
length-zeros zero = refl
length-zeros (suc n) = ap suc (length-zeros n)

length-hmac_key : (key : List ℕ) → length (hmac_key key) ≡ 64
unfolding hmac_key
length-hmac_key key = elim (Bool-cases (ltb 64 (length key))) [
  | inl e ↦ rw (e, hmac_key) (of_short (sha1 key) (omega (arith, length-sha1 key)))
  | inr e ↦ rw (e, hmac_key) (of_short key (not_longer (length key) e))
]
  where
    not_longer : (k : ℕ) → ltb 64 k ≡ false → k ≤ 64
    not_longer k e = ground (arith, e)

    of_short : (k : List ℕ) → length k ≤ 64 → length (k ++ Hmac.zeros (64 - length k)) ≡ 64
    of_short k h =
        omega (arith, length-append k (Hmac.zeros (64 - length k)), length-zeros (64 - length k))

zeros-nulls : (n : ℕ) → Hmac.zeros n ≡ nulls n
zeros-nulls zero = refl
zeros-nulls (suc n) = ap (λ s. 0 ∷ s) (zeros-nulls n)

hmac_key-block_key : (key : List ℕ) → hmac_key key ≡ block_key key
unfolding hmac_key
hmac_key-block_key key = elim (Bool-cases (ltb 64 (length key))) [
  | inl e ↦
      let long : leb (length key) 64 ≡ false = ground (arith, e) in
      let rest : 64 - length (sha1 key) ≡ 44 = omega (arith, length-sha1 key) in
      rw (e, long, hmac_key)
        (ap (λ n. sha1 key ++ Hmac.zeros n) rest ∙ ap (λ z. sha1 key ++ z) (zeros-nulls 44))
  | inr e ↦
      let short : leb (length key) 64 ≡ true = ground (arith, e) in
      rw (e, short, hmac_key) (ap (λ z. key ++ z) (zeros-nulls (64 - length key)))
]

-- For every key and message, hmac_sha1 gives the HMAC of RFC 2104: the hash of the outer padded key
-- with the hash of the inner padded key and the message, where a key of more than 64 bytes, and no
-- shorter one, is hashed first, and the key is filled up with zeros. The code has 20 bytes.
pub hmac_sha1_lem :
    (key msg : List ℕ) → (hmac_sha1 key msg ≡ rfc2104 key msg) × (length (hmac_sha1 key msg) ≡ 20)
hmac_sha1_lem key msg = (same, ap length same ∙ length-sha1 _)
  where
    same : hmac_sha1 key msg ≡ rfc2104 key msg
    same =
        unfold hmac_sha1 in
        (hash_of_two (map (λ b. bit_xor b 0x5c) (hmac_key key)) _
          ∙ ap (λ t. sha1 (map (λ b. bit_xor b 0x5c) (hmac_key key) ++ t))
              (hash_of_two (map (λ b. bit_xor b 0x36) (hmac_key key)) msg))
        ∙ ap (λ k. sha1 (map (λ b. bit_xor b 0x5c) k ++ sha1 (map (λ b. bit_xor b 0x36) k ++ msg)))
            (hmac_key-block_key key)

length-iterate :
    (left : ℕ) (pass u t : List ℕ) → length t ≡ 20 → length (iterate left pass u t) ≡ 20
unfolding iterate
length-iterate zero pass u t h = h
length-iterate (suc left) pass u t h =
    length-iterate left pass (hmac_sha1 pass u) (xor_bytes t (hmac_sha1 pass u))
      (length-xor_bytes t (hmac_sha1 pass u) ∙ h)

taken :
    (outlen : ℕ)
    → (clipped (suc outlen) 20 ≤ 20)
      × (clipped (suc outlen) 20 ≤ suc outlen)
      × (0 < clipped (suc outlen) 20)
taken outlen = ground arith

length-piece :
    (n outlen : ℕ) (t more : List ℕ)
    → length t ≡ 20
    → n ≤ 20
    → n ≤ outlen
    → length more ≡ outlen - n
    → length (take n t ++ more) ≡ outlen
length-piece n outlen t more e low within rest =
    omega
      (arith, length-append (take n t) more, length-take n t (omega (arith, e, low)), rest, within)

length-pbkdf2_loop :
    (rounds : ℕ) (pass salt : List ℕ) (iters blk outlen : ℕ)
    → outlen ≤ rounds
    → length (pbkdf2_loop rounds pass salt iters blk outlen) ≡ outlen
unfolding pbkdf2_loop
length-pbkdf2_loop zero pass salt iters blk outlen h = omega arith
length-pbkdf2_loop (suc rounds) pass salt iters blk zero h = refl
length-pbkdf2_loop (suc rounds) pass salt iters blk (suc outlen) h =
    let (low, within, some_byte) = taken outlen in
    length-piece (clipped (suc outlen) 20) (suc outlen) _ _
      (length-iterate (iters - 1) pass _ _ (hmac_sha1_lem pass (salt ++ bytes32 blk)).1) low within
      (length-pbkdf2_loop rounds pass salt iters (blk + 1) (suc outlen - clipped (suc outlen) 20)
        (omega (arith, some_byte, h)))

-- A derived key has the length that is asked for, in no more rounds than that.
pub length-pbkdf2_sha1 :
    (pass salt : List ℕ) (iters outlen : ℕ) → length (pbkdf2_sha1 pass salt iters outlen) ≡ outlen
unfolding pbkdf2_sha1
length-pbkdf2_sha1 pass salt iters outlen =
    length-pbkdf2_loop outlen pass salt iters 1 outlen (omega arith)
