-- ===== src/Crypto/Unwrap.antt =====
-- src/device/wifi/wifi_crypto.c: the key unwrap of RFC 3394.
pub mod Wrap
use teatime_os.Base.{
  ℕ, zero, suc, ◌+◌, ◌-◌, ◌*◌, ◌/◌, ◌%◌, ◌^◌, Bool, Option, none, some, List, [], ◌∷◌, ◌++◌, take,
  drop, set, get_or, if◌then◌else◌,
}
use teatime_os.Crypto.Aes.{xor_bytes, aes128_init, aes128_decrypt}
use teatime_os.Crypto.Ccm.{same_bytes}

-- `a`, and `out` as the list of its blocks of eight bytes.
pub record Registers : Type 0 where
  pub a : List ℕ
  pub out : List (List ℕ)

-- The four last bytes of `a` are changed by the count.
abbrev pub counted : List ℕ → ℕ → List ℕ
counted a t =
    take 4 a
    ++ xor_bytes (drop 4 a)
        ((t / 16777216 % 256) ∷ (t / 65536 % 256) ∷ (t / 256 % 256) ∷ (t % 256) ∷ [])

abbrev pub count_of : ℕ → ℕ → ℕ → ℕ
count_of n j i = (n * j + i) % 2 ^ 32

unfoldable pub unwrap_step : List ℕ → ℕ → ℕ → ℕ → Registers → Registers
unfolding xor_bytes aes128_decrypt
unwrap_step rk n j i r =
    let b = aes128_decrypt rk (counted r.a (count_of n j i) ++ get_or r.out (i - 1) []) in
    record { a = take 8 b; out = set r.out (i - 1) (drop 8 b) }

-- `for (i = n; i >= 1; i--)`, and `for (j = 5; j >= 0; j--)`.
unfoldable pub unwrap_inner : List ℕ → ℕ → ℕ → ℕ → Registers → Registers
unfolding unwrap_step
unwrap_inner rk n j zero r = r
unwrap_inner rk n j (suc i) r = unwrap_inner rk n j i (unwrap_step rk n j (suc i) r)

unfoldable pub unwrap_outer : List ℕ → ℕ → ℕ → Registers → Registers
unfolding unwrap_inner
unwrap_outer rk n zero r = r
unwrap_outer rk n (suc j) r = unwrap_outer rk n j (unwrap_inner rk n j n r)

-- The `n` blocks of a region.
unfoldable pub blocks8 : ℕ → List ℕ → List (List ℕ)
blocks8 zero s = []
blocks8 (suc n) s = take 8 s ∷ blocks8 n (drop 8 s)

unfoldable pub joined8 : List (List ℕ) → List ℕ
joined8 [] = []
joined8 (b ∷ bs) = b ++ joined8 bs

abbrev pub default_iv : List ℕ
default_iv = 0xa6 ∷ 0xa6 ∷ 0xa6 ∷ 0xa6 ∷ 0xa6 ∷ 0xa6 ∷ 0xa6 ∷ 0xa6 ∷ []

-- `none` is -1, after which `out` is not used.
unfoldable pub aes_unwrap : List ℕ → ℕ → List ℕ → Option (List ℕ)
unfolding unwrap_outer blocks8 joined8 aes128_init same_bytes
aes_unwrap kek n wrapped =
    let r =
      unwrap_outer (aes128_init kek) n 6
        (record { a = take 8 wrapped; out = blocks8 n (drop 8 wrapped) }) in
    if same_bytes r.a default_iv then some (joined8 r.out) else none
