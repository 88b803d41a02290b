-- ===== src/Crypto/Tests.antt =====
-- Published test values, and the theorems at concrete inputs.
use teatime_os.Base.{ℕ, ◌≡◌, ◌↔◌, refl, true, some, List, [], ◌∷◌, length, arith}
use teatime_os.Crypto.Sha1.{Sha1Ctx, sha1_init, sha1_update, sha1}
use teatime_os.Crypto.Sha1.Streaming.{HasRoom, sha1_update-append}
use teatime_os.Crypto.Hmac.{hmac_sha1}
use teatime_os.Crypto.Hmac.Laws.{rfc2104, hmac_sha1_lem}
use teatime_os.Crypto.Ccm.{aes_ccm_encrypt, aes_ccm_decrypt}
use teatime_os.Crypto.Ccm.Laws.{aes_ccm_decrypt_iff}
use teatime_os.Crypto.Wpa.{derive_ptk, extract_gtk}
use teatime_os.Crypto.Wpa.Agreement.{derive_ptk-agrees}
use teatime_os.Crypto.Wpa.GroupKey.{Element, elements, gtk_element, extract_gtk-found}
use teatime_os.Crypto.Unwrap.{joined8, aes_unwrap}
use teatime_os.Crypto.Unwrap.Wrap.{wrap, aes_unwrap-wrap}
use teatime_os.Crypto.Aes.RoundTrip.{aes128_decrypt-aes128_encrypt}
use teatime_os.Crypto.Aes.{aes128_init, aes128_encrypt, aes128_decrypt}

-- FIPS 197, appendix B.
abbrev key : List ℕ
key =
    0x2b ∷ 0x7e ∷ 0x15 ∷ 0x16 ∷ 0x28 ∷ 0xae ∷ 0xd2 ∷ 0xa6 ∷ 0xab ∷ 0xf7 ∷ 0x15 ∷ 0x88 ∷ 0x09 ∷ 0xcf
    ∷ 0x4f ∷ 0x3c ∷ []

abbrev plain : List ℕ
plain =
    0x32 ∷ 0x43 ∷ 0xf6 ∷ 0xa8 ∷ 0x88 ∷ 0x5a ∷ 0x30 ∷ 0x8d ∷ 0x31 ∷ 0x31 ∷ 0x98 ∷ 0xa2 ∷ 0xe0 ∷ 0x37
    ∷ 0x07 ∷ 0x34 ∷ []

abbrev cipher : List ℕ
cipher =
    0x39 ∷ 0x25 ∷ 0x84 ∷ 0x1d ∷ 0x02 ∷ 0xdc ∷ 0x09 ∷ 0xfb ∷ 0xdc ∷ 0x11 ∷ 0x85 ∷ 0x97 ∷ 0x19 ∷ 0x6a
    ∷ 0x0b ∷ 0x32 ∷ []

encrypt_known : aes128_encrypt (aes128_init key) plain ≡ cipher
unfolding aes128_encrypt aes128_init
encrypt_known = refl

decrypt_known : aes128_decrypt (aes128_init key) cipher ≡ plain
unfolding aes128_decrypt aes128_init
decrypt_known = refl

-- FIPS 180, the digest of "abc" and of the empty text.
sha1_known :
    sha1 (0x61 ∷ 0x62 ∷ 0x63 ∷ [])
    ≡ 0xa9 ∷ 0x99 ∷ 0x3e ∷ 0x36 ∷ 0x47 ∷ 0x06 ∷ 0x81 ∷ 0x6a ∷ 0xba ∷ 0x3e ∷ 0x25 ∷ 0x71 ∷ 0x78
      ∷ 0x50 ∷ 0xc2 ∷ 0x6c ∷ 0x9c ∷ 0xd0 ∷ 0xd8 ∷ 0x9d ∷ []
unfolding sha1
sha1_known = refl

-- RFC 2202, the second test: the key "Jefe".
hmac_known :
    hmac_sha1 (0x4a ∷ 0x65 ∷ 0x66 ∷ 0x65 ∷ []) (
      (0x77 ∷ 0x68 ∷ 0x61 ∷ 0x74 ∷ 0x20 ∷ 0x64 ∷ 0x6f ∷ 0x20 ∷ 0x79 ∷ 0x61 ∷ 0x20 ∷ 0x77 ∷ 0x61
        ∷ 0x6e ∷ 0x74 ∷ 0x20 ∷ 0x66 ∷ 0x6f ∷ 0x72 ∷ 0x20 ∷ 0x6e ∷ 0x6f ∷ 0x74 ∷ 0x68 ∷ 0x69 ∷ 0x6e
        ∷ 0x67 ∷ 0x3f ∷ []))
    ≡ 0xef ∷ 0xfc ∷ 0xdf ∷ 0x6a ∷ 0xe5 ∷ 0xeb ∷ 0x2f ∷ 0xa2 ∷ 0xd2 ∷ 0x74 ∷ 0x16 ∷ 0xd5 ∷ 0xf1
      ∷ 0x84 ∷ 0xdf ∷ 0x9c ∷ 0x25 ∷ 0x9a ∷ 0x7c ∷ 0x79 ∷ []
unfolding hmac_sha1
hmac_known = refl

-- RFC 3394, 4.1: 128 bits of key data.
abbrev kek : List ℕ
kek = 0 ∷ 1 ∷ 2 ∷ 3 ∷ 4 ∷ 5 ∷ 6 ∷ 7 ∷ 8 ∷ 9 ∷ 10 ∷ 11 ∷ 12 ∷ 13 ∷ 14 ∷ 15 ∷ []

abbrev key_data : List (List ℕ)
key_data =
    (0x00 ∷ 0x11 ∷ 0x22 ∷ 0x33 ∷ 0x44 ∷ 0x55 ∷ 0x66 ∷ 0x77 ∷ [])
    ∷ (0x88 ∷ 0x99 ∷ 0xaa ∷ 0xbb ∷ 0xcc ∷ 0xdd ∷ 0xee ∷ 0xff ∷ [])
    ∷ []

unwrap_known :
    aes_unwrap kek 2 (
      0x1f ∷ 0xa6 ∷ 0x8b ∷ 0x0a ∷ 0x81 ∷ 0x12 ∷ 0xb4 ∷ 0x47 ∷ 0xae ∷ 0xf3 ∷ 0x4b ∷ 0xd8 ∷ 0xfb
      ∷ 0x5a ∷ 0x7b ∷ 0x82 ∷ 0x9d ∷ 0x3e ∷ 0x86 ∷ 0x23 ∷ 0x71 ∷ 0xd2 ∷ 0xcf ∷ 0xe5 ∷ [])
    ≡ some (joined8 key_data)
unfolding aes_unwrap
unwrap_known = refl

aes_unwrap-wrap_example : aes_unwrap kek 2 (wrap kek key_data) ≡ some (joined8 key_data)
aes_unwrap-wrap_example =
    aes_unwrap-wrap kek key_data (omega arith)
      (
        record { eight = refl; bytes = omega arith },
        (record { eight = refl; bytes = omega arith }, tt),
      )
      (omega arith)

aes128_decrypt-aes128_encrypt_example :
    aes128_decrypt (aes128_init key) (aes128_encrypt (aes128_init key) plain) ≡ plain
aes128_decrypt-aes128_encrypt_example =
    aes128_decrypt-aes128_encrypt key plain (omega arith)
      (record { sixteen = refl; bytes = omega arith })

aes_ccm_decrypt_iff_example :
    (aes_ccm_decrypt key plain [] (1 ∷ []) (2 ∷ []) ≡ (true, 3 ∷ []))
    ↔ (aes_ccm_encrypt key plain [] (3 ∷ []) ≡ (1 ∷ [], 2 ∷ []))
aes_ccm_decrypt_iff_example = aes_ccm_decrypt_iff key plain [] (1 ∷ []) (2 ∷ []) (3 ∷ [])

abbrev begun : Sha1Ctx
begun = record sha1_init { buf = 1 ∷ 2 ∷ [] }

begun-HasRoom : HasRoom begun
unfolding sha1_init
begun-HasRoom = record { room = omega arith }

sha1_update-append_example :
    sha1_update (sha1_update begun (1 ∷ [])) (2 ∷ 3 ∷ []) ≡ sha1_update begun (1 ∷ 2 ∷ 3 ∷ [])
sha1_update-append_example = sha1_update-append begun (1 ∷ []) (2 ∷ 3 ∷ []) begun-HasRoom

hmac_sha1_example : (hmac_sha1 key plain ≡ rfc2104 key plain) × (length (hmac_sha1 key plain) ≡ 20)
hmac_sha1_example = hmac_sha1_lem key plain

derive_ptk-agrees_example :
    derive_ptk key (1 ∷ 2 ∷ []) (1 ∷ 3 ∷ []) (9 ∷ []) (8 ∷ [])
    ≡ derive_ptk key (1 ∷ 3 ∷ []) (1 ∷ 2 ∷ []) (8 ∷ []) (9 ∷ [])
derive_ptk-agrees_example =
    derive_ptk-agrees key (1 ∷ 2 ∷ []) (1 ∷ 3 ∷ []) (9 ∷ []) (8 ∷ []) refl refl

-- An RSN element, which is not a group key.
abbrev rsn : Element
rsn = record { tag = 48; body = 1 ∷ 0 ∷ [] }

extract_gtk-found_example :
    extract_gtk (elements (rsn ∷ []) (elements (gtk_element 6 0 key ∷ []) (0xdd ∷ 0 ∷ [])))
    ≡ some (record { id = 2; key = key })
extract_gtk-found_example =
    extract_gtk-found (rsn ∷ []) 6 0 key (0xdd ∷ 0 ∷ []) (λ s. refl, tt) (omega arith)
