-- ===== src/Crypto/Ccm.antt =====
-- src/device/wifi/wifi_crypto.c: counter mode with a CBC-MAC. A message authentication code is the
-- list of its eight bytes.
pub mod Laws
use Prim.Native.Nat.{bit_xor}
use teatime_os.Base.{
  ℕ, zero, suc, ◌+◌, ◌/◌, ◌%◌, Bool, true, false, ◌&&◌, List, [], ◌∷◌, ◌++◌, length, take, ◌==◌,
  add32, bytes16,
}
use teatime_os.Crypto.Aes.{xor_bytes, aes128_init, aes128_encrypt}

abbrev pub zeros16 : List ℕ
zeros16 = 0 ∷ 0 ∷ 0 ∷ 0 ∷ 0 ∷ 0 ∷ 0 ∷ 0 ∷ 0 ∷ 0 ∷ 0 ∷ 0 ∷ 0 ∷ 0 ∷ 0 ∷ 0 ∷ []

-- A block that is filled from the left, the rest of it 0.
abbrev pub padded : List ℕ → List ℕ
padded ab = take 16 (ab ++ zeros16)

unfoldable pub ccm_cbc_block : List ℕ → List ℕ → List ℕ → List ℕ
unfolding xor_bytes aes128_encrypt
ccm_cbc_block rk x blk = aes128_encrypt rk (xor_bytes x blk)

-- The bytes of a region fill the block `ab`, which is taken in whenever it is full and at the end.
unfoldable pub absorb : List ℕ → List ℕ → List ℕ → List ℕ → List ℕ
unfolding ccm_cbc_block
absorb rk x ab [] = elim ab [ [] ↦ x | c ∷ more ↦ ccm_cbc_block rk x (padded (c ∷ more)) ]
absorb rk x ab (c ∷ s) = elim (length (ab ++ c ∷ []) == 16) [
  | true ↦ absorb rk (ccm_cbc_block rk x (ab ++ c ∷ [])) [] s
  | false ↦ absorb rk x (ab ++ c ∷ []) s
]

unfoldable pub ccm_mac : List ℕ → List ℕ → List ℕ → List ℕ → List ℕ
unfolding absorb
ccm_mac rk nonce aad msg =
    let x = aes128_encrypt rk (0x59 ∷ take 13 nonce ++ bytes16 (length msg)) in
    absorb rk (absorb rk x (bytes16 (length aad)) aad) [] msg

abbrev pub counter_block : List ℕ → ℕ → List ℕ
counter_block nonce ctr = 0x01 ∷ take 13 nonce ++ bytes16 ctr

-- `ks` is what is left of the current block of the key stream.
unfoldable pub ctr_loop : List ℕ → List ℕ → ℕ → List ℕ → List ℕ → List ℕ
unfolding aes128_encrypt
ctr_loop rk nonce ctr ks [] = []
ctr_loop rk nonce ctr (k ∷ ks) (c ∷ s) = bit_xor c k ∷ ctr_loop rk nonce ctr ks s
ctr_loop rk nonce ctr [] (c ∷ s) = elim (aes128_encrypt rk (counter_block nonce ctr)) [
  | [] ↦ c ∷ ctr_loop rk nonce (add32 ctr 1) [] s
  | k ∷ ks ↦ bit_xor c k ∷ ctr_loop rk nonce (add32 ctr 1) ks s
]

unfoldable pub ccm_ctr : List ℕ → List ℕ → ℕ → List ℕ → List ℕ
unfolding ctr_loop
ccm_ctr rk nonce counter s = ctr_loop rk nonce counter [] s

-- The code of a message, masked by counter block 0.
abbrev pub mic_of : List ℕ → List ℕ → List ℕ → List ℕ → List ℕ
mic_of rk nonce aad plain =
    take 8 (xor_bytes (ccm_mac rk nonce aad plain) (aes128_encrypt rk (counter_block nonce 0)))

unfoldable pub aes_ccm_encrypt : List ℕ → List ℕ → List ℕ → List ℕ → List ℕ × List ℕ
unfolding aes128_init ccm_mac ccm_ctr
aes_ccm_encrypt key nonce aad plain =
    let rk = aes128_init key in (ccm_ctr rk nonce 1 plain, mic_of rk nonce aad plain)

unfoldable pub same_bytes : List ℕ → List ℕ → Bool
same_bytes [] [] = true
same_bytes (a ∷ s) (b ∷ t) = a == b && same_bytes s t
same_bytes [] (b ∷ t) = false
same_bytes (a ∷ s) [] = false

-- Whether the code is right, and what was written to `plain`.
unfoldable pub aes_ccm_decrypt : List ℕ → List ℕ → List ℕ → List ℕ → List ℕ → Bool × List ℕ
unfolding aes128_init ccm_mac ccm_ctr same_bytes
aes_ccm_decrypt key nonce aad cipher mic =
    let rk = aes128_init key in
    let plain = ccm_ctr rk nonce 1 cipher in (same_bytes (mic_of rk nonce aad plain) mic, plain)
