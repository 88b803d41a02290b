-- ===== src/Crypto/Hmac.antt =====
-- src/device/wifi/wifi_crypto.c: what is built on SHA-1: HMAC, PBKDF2 and the PRF of WPA2.
pub mod Laws
use Prim.Native.Nat.{bit_xor}
use teatime_os.Base.{
  ℕ, zero, suc, ◌+◌, ◌-◌, ◌/◌, ◌%◌, ◌^◌, List, [], ◌∷◌, ◌++◌, map, length, take, drop, ltb,
  if◌then◌else◌,
}
use teatime_os.Crypto.Aes.{xor_bytes}
use teatime_os.Crypto.Sha1.{clipped, bytes32, sha1_init, sha1_update, sha1_final, sha1}

abbrev pub zeros : ℕ → List ℕ
zeros zero = []
zeros (suc n) = 0 ∷ zeros n

-- The key, hashed if it is longer than a block, with 0 up to 64 bytes.
unfoldable pub hmac_key : List ℕ → List ℕ
unfolding sha1
hmac_key key = let k = if ltb 64 (length key) then sha1 key else key in k ++ zeros (64 - length k)

unfoldable pub hmac_sha1 : List ℕ → List ℕ → List ℕ
unfolding hmac_key sha1_init sha1_update sha1_final
hmac_sha1 key msg =
    let ipad = map (λ k. bit_xor k 0x36) (hmac_key key) in
    let opad = map (λ k. bit_xor k 0x5c) (hmac_key key) in
    let inner = sha1_final (sha1_update (sha1_update sha1_init ipad) msg) in
    sha1_final (sha1_update (sha1_update sha1_init opad) inner)

unfoldable pub iterate : ℕ → List ℕ → List ℕ → List ℕ → List ℕ
unfolding hmac_sha1 xor_bytes
iterate zero pass u t = t
iterate (suc left) pass u t = let u' = hmac_sha1 pass u in iterate left pass u' (xor_bytes t u')

-- `while (outlen)`, in at most so many rounds.
unfoldable pub pbkdf2_loop : ℕ → List ℕ → List ℕ → ℕ → ℕ → ℕ → List ℕ
unfolding hmac_sha1 iterate
pbkdf2_loop zero pass salt iters blk outlen = []
pbkdf2_loop (suc rounds) pass salt iters blk zero = []
pbkdf2_loop (suc rounds) pass salt iters blk (suc outlen) =
    let n = clipped (suc outlen) 20 in
    let u = hmac_sha1 pass (salt ++ bytes32 blk) in
    take n (iterate (iters - 1) pass u u)
    ++ pbkdf2_loop rounds pass salt iters (blk + 1) (suc outlen - n)

unfoldable pub pbkdf2_sha1 : List ℕ → List ℕ → ℕ → ℕ → List ℕ
unfolding pbkdf2_loop
pbkdf2_sha1 pass salt iters outlen = pbkdf2_loop outlen pass salt iters 1 outlen

unfoldable pub wpa2_pmk : List ℕ → List ℕ → List ℕ
unfolding pbkdf2_sha1
wpa2_pmk passphrase ssid = pbkdf2_sha1 passphrase ssid 4096 32

-- `i` is an unsigned char.
unfoldable pub prf_loop : ℕ → List ℕ → List ℕ → List ℕ → ℕ → ℕ → List ℕ
unfolding hmac_sha1
prf_loop zero key label bytes i outlen = []
prf_loop (suc rounds) key label bytes i zero = []
prf_loop (suc rounds) key label bytes i (suc outlen) =
    let n = clipped (suc outlen) 20 in
    take n (hmac_sha1 key (label ++ 0 ∷ bytes ++ i ∷ []))
    ++ prf_loop rounds key label bytes ((i + 1) % 256) (suc outlen - n)

unfoldable pub sha1_prf : List ℕ → List ℕ → List ℕ → ℕ → List ℕ
unfolding prf_loop
sha1_prf key label bytes outlen = prf_loop outlen key label bytes 0 outlen
