-- ===== src/Net/Udp/Checksums.antt =====
-- The checksums in the headers that go out.
use teatime_os.Base.{
  ℕ, ◌+◌, ◌-◌, ◌/◌, ◌%◌, ◌^◌, ◌<◌, ◌≡◌, refl, ap, ◌∙◌, List, [], ◌∷◌, ◌++◌, length, arith, native16,
  native32, AreBytes,
}
use teatime_os.Net.Checksum.{checksum}
use teatime_os.Net.Checksum.Laws.{
  sum16, sum16_bound, checksum_folds, with_field, sum16-with_field, AreBytes-with_field,
  checksum-verifies,
}
use teatime_os.Net.Output.{ipv4_front, ipv4_header}
use teatime_os.Net.Udp.{pseudo_header, udp_front}

checksum-le :
    (s : List ℕ) (start : ℕ) → AreBytes s → start + sum16 s < 2 ^ 32 → checksum s start < 65536
checksum-le s start b h = let (r, e, f) = checksum_folds s start b h in omega (arith, e)

native16-field : (a b : List ℕ) (c : ℕ) → c < 65536 → a ++ native16 c ++ b ≡ with_field a c b
native16-field [] b c h =
    let e : c / 256 % 256 ≡ c / 256 = omega arith in ap (λ k. (c % 256) ∷ k ∷ b) e
native16-field (x ∷ a) b c h = ap (λ t. x ∷ t) (native16-field a b c h)

-- The header of every IPv4 packet that goes out sums up to nothing, as its receiver checks.
pub ipv4_header-verifies :
    (src dst protocol total : ℕ)
    → protocol < 256
    → total < 65536
    → src < 2 ^ 32
    → dst < 2 ^ 32
    → checksum (ipv4_header src dst protocol total) 0 ≡ 0
unfolding ipv4_header
ipv4_header-verifies src dst protocol total p t s d =
    ap (λ h. checksum h 0) (native16-field front rest c small)
    ∙ checksum-verifies front rest 0 bytes_front bytes_rest refl bound
  where
    front : List ℕ
    front = ipv4_front total protocol

    rest : List ℕ
    rest = native32 src ++ native32 dst

    c : ℕ
    c = checksum (front ++ 0 ∷ 0 ∷ rest) 0

    bytes_front : AreBytes front
    bytes_front = omega arith

    bytes_rest : AreBytes rest
    bytes_rest = omega arith

    bound : 0 + sum16 front + sum16 rest + 65535 < 2 ^ 32
    bound = omega (arith, sum16_bound front bytes_front, sum16_bound rest bytes_rest)

    small : c < 65536
    small =
        checksum-le (with_field front 0 rest) 0
          (AreBytes-with_field front 0 rest bytes_front bytes_rest (omega arith))
          (omega (arith, sum16-with_field front 0 rest refl (omega arith), bound))

-- A field that completes the sum `r`, by 65535 where it is complete.
record Completes (c r : ℕ) : Type 0 where
  short : c < 65536
  some_bit : 0 < c
  rest : c % 65535 ≡ (65535 - r) % 65535

module _ (src dst sport dport : ℕ) (payload : List ℕ) where
  abbrev summed : List ℕ
  summed = pseudo_header src dst (8 + length payload) ++ udp_front sport dport (8 + length payload)

  blank_sum : ℕ
  blank_sum = checksum (with_field summed 0 payload) 0
