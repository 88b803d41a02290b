-- ===== src/Crypto/Unwrap/Wrap.antt =====
-- The wrapping of RFC 3394, and that the unwrapping undoes it.
use mathlib.Core.Path.{ap₂}
use native.Mathlib.Nat.{mul-suc}
use teatime_os.Base.{
  length-append, length-take, length-drop, take-append_drop, get_or-set_self, set-set, set-get_or,
  All-set, All-get_or, bit_xor_zero, subst, ℕ, zero, suc, ◌+◌, ◌*◌, ◌^◌, ◌-◌, ◌/◌, ◌%◌, ◌≤◌, ◌<◌,
  ◌≡◌, refl, sym, ap, ◌∙◌, Option, none, some, List, [], ◌∷◌, ◌++◌, length, length-set, take, drop,
  set, get_or, if◌then◌else◌, AreBytes, All, arith,
}
use teatime_os.Crypto.Aes.{xor_bytes, aes128_init, aes128_encrypt, aes128_decrypt}
use teatime_os.Crypto.Aes.Bytes.{
  AreBytes-append, AreBytes-xor_bytes, AreBytes-aes128_init, AreBytes-take, AreBytes-drop,
}
use teatime_os.Crypto.Aes.RoundTrip.{IsBlock, xor_bytes-twice, decrypt-encrypt, encrypt-IsBlock}
use teatime_os.Crypto.Ccm.{same_bytes}
use teatime_os.Crypto.Unwrap.{
  Registers, counted, count_of, unwrap_step, unwrap_inner, unwrap_outer, blocks8, joined8,
  default_iv, aes_unwrap,
}

-- A half block of eight bytes.
pub record IsHalf (s : List ℕ) : Type 0 where
  pub eight : length s ≡ 8
  pub bytes : AreBytes s

pub record AreHalves (n : ℕ) (r : Registers) : Type 0 where
  pub a_half : IsHalf r.a
  pub out_length : length r.out ≡ n
  pub out_halves : All IsHalf r.out

-- The eight bytes of a number, the highest first.
abbrev pub bytes64 : ℕ → List ℕ
bytes64 t =
    (t / 2 ^ 56 % 256)
    ∷ (t / 2 ^ 48 % 256)
    ∷ (t / 2 ^ 40 % 256)
    ∷ (t / 2 ^ 32 % 256)
    ∷ (t / 2 ^ 24 % 256)
    ∷ (t / 2 ^ 16 % 256)
    ∷ (t / 2 ^ 8 % 256)
    ∷ (t % 256)
    ∷ []

-- A step of the wrapping, which RFC 3394 numbers by t = n * j + i: the block is encrypted, and t, as a
-- number of 64 bits, is put into its first half.
abbrev pub wrap_step : List ℕ → ℕ → ℕ → ℕ → Registers → Registers
wrap_step rk n j i r =
    let b = aes128_encrypt rk (r.a ++ get_or r.out (i - 1) []) in
    record { a = xor_bytes (take 8 b) (bytes64 (n * j + i)); out = set r.out (i - 1) (drop 8 b) }

abbrev pub wrap_inner : List ℕ → ℕ → ℕ → ℕ → Registers → Registers
wrap_inner rk n j zero r = r
wrap_inner rk n j (suc i) r = wrap_step rk n j (suc i) (wrap_inner rk n j i r)

abbrev pub wrap_outer : List ℕ → ℕ → ℕ → Registers → Registers
wrap_outer rk n zero r = r
wrap_outer rk n (suc j) r = wrap_inner rk n j n (wrap_outer rk n j r)

-- The same with the count that the code puts in.
counted_step : List ℕ → ℕ → ℕ → ℕ → Registers → Registers
counted_step rk n j i r =
    let b = aes128_encrypt rk (r.a ++ get_or r.out (i - 1) []) in
    record { a = counted (take 8 b) (count_of n j i); out = set r.out (i - 1) (drop 8 b) }

counted_inner : List ℕ → ℕ → ℕ → ℕ → Registers → Registers
counted_inner rk n j zero r = r
counted_inner rk n j (suc i) r = counted_step rk n j (suc i) (counted_inner rk n j i r)

counted_outer : List ℕ → ℕ → ℕ → Registers → Registers
counted_outer rk n zero r = r
counted_outer rk n (suc j) r = counted_inner rk n j n (counted_outer rk n j r)

-- A count of 32 bits is in the last four bytes only.
counted-bytes64 :
    (a : List ℕ) (n j i : ℕ)
    → length a ≡ 8
    → n * j + i < 2 ^ 32
    → xor_bytes a (bytes64 (n * j + i)) ≡ counted a (count_of n j i)
unfolding xor_bytes
counted-bytes64 (a ∷ b ∷ c ∷ d ∷ e ∷ f ∷ g ∷ h ∷ []) n j i p q = low (n * j + i) q
  where
    low :
        (t : ℕ)
        → t < 2 ^ 32
        → xor_bytes (a ∷ b ∷ c ∷ d ∷ e ∷ f ∷ g ∷ h ∷ []) (bytes64 t)
          ≡ counted (a ∷ b ∷ c ∷ d ∷ e ∷ f ∷ g ∷ h ∷ []) (t % 2 ^ 32)
    low t q =
        let z7 : t / 2 ^ 56 % 256 ≡ 0 = omega (arith, q) in
        let z6 : t / 2 ^ 48 % 256 ≡ 0 = omega (arith, q) in
        let z5 : t / 2 ^ 40 % 256 ≡ 0 = omega (arith, q) in
        let z4 : t / 2 ^ 32 % 256 ≡ 0 = omega (arith, q) in
        let w : t % 2 ^ 32 ≡ t = omega (arith, q) in
        rw (z7, z6, z5, z4, w, bit_xor_zero a, bit_xor_zero b, bit_xor_zero c, bit_xor_zero d) refl
counted-bytes64 _ n j i p q = absurd (omega (arith, p))

counted-twice : (a : List ℕ) (t : ℕ) → length a ≡ 8 → counted (counted a t) t ≡ a
unfolding xor_bytes
counted-twice (a ∷ b ∷ c ∷ d ∷ e ∷ f ∷ g ∷ h ∷ []) t p =
    ap (λ s. a ∷ b ∷ c ∷ d ∷ s)
      (xor_bytes-twice (e ∷ f ∷ g ∷ h ∷ [])
        ((t / 16777216 % 256) ∷ (t / 65536 % 256) ∷ (t / 256 % 256) ∷ (t % 256) ∷ []))
counted-twice _ t p = absurd (omega (arith, p))

counted-IsHalf : (a : List ℕ) (t : ℕ) → IsHalf a → IsHalf (counted a t)
counted-IsHalf a t v = record {
  eight = size a v.eight;
  bytes =
      AreBytes-append (take 4 a) _ (AreBytes-take 4 a v.bytes)
        (AreBytes-xor_bytes (drop 4 a) _ (AreBytes-drop 4 a v.bytes) (omega arith));
}
  where
    size : (a : List ℕ) → length a ≡ 8 → length (counted a t) ≡ 8
    size (a ∷ b ∷ c ∷ d ∷ e ∷ f ∷ g ∷ h ∷ []) p = unfold xor_bytes in refl
    size _ p = absurd (omega (arith, p))

-- The two halves of a block, put together and taken apart.
take-halves : (a b : List ℕ) → length a ≡ 8 → take 8 (a ++ b) ≡ a
take-halves (a ∷ c ∷ d ∷ e ∷ f ∷ g ∷ h ∷ i ∷ []) b p = refl
take-halves _ b p = absurd (omega (arith, p))

drop-halves : (a b : List ℕ) → length a ≡ 8 → drop 8 (a ++ b) ≡ b
drop-halves (a ∷ c ∷ d ∷ e ∷ f ∷ g ∷ h ∷ i ∷ []) b p = refl
drop-halves _ b p = absurd (omega (arith, p))

halves-IsBlock : (a b : List ℕ) → IsHalf a → IsHalf b → IsBlock (a ++ b)
halves-IsBlock a b v w = record {
  sixteen = omega (arith, length-append a b, v.eight, w.eight);
  bytes = AreBytes-append a b v.bytes w.bytes;
}

take-IsHalf : (s : List ℕ) → IsBlock s → IsHalf (take 8 s)
take-IsHalf s v = record {
  eight = length-take 8 s (omega (arith, v.sixteen));
  bytes = AreBytes-take 8 s v.bytes;
}

drop-IsHalf : (s : List ℕ) → IsBlock s → IsHalf (drop 8 s)
drop-IsHalf s v = record {
  eight = omega (arith, length-drop 8 s, v.sixteen);
  bytes = AreBytes-drop 8 s v.bytes;
}

module _ (rk : List ℕ) (keys : AreBytes rk) (n : ℕ) where
  -- The block that a step works on.
  counted-IsBlock :
      (i : ℕ) (r : Registers) → i - 1 < n → AreHalves n r → IsBlock (r.a ++ get_or r.out (i - 1) [])
  counted-IsBlock i r h v =
      halves-IsBlock r.a (get_or r.out (i - 1) []) v.a_half
        (All-get_or IsHalf r.out (i - 1) [] v.out_halves (omega (arith, v.out_length)))

  counted_step-AreHalves :
      (j i : ℕ) (r : Registers) → i - 1 < n → AreHalves n r → AreHalves n (counted_step rk n j i r)
  unfolding counted_step
  counted_step-AreHalves j i r h v =
      let x = r.a ++ get_or r.out (i - 1) [] in
      let b = encrypt-IsBlock rk x keys (counted-IsBlock i r h v) in
      record {
        a_half = counted-IsHalf (take 8 (aes128_encrypt rk x)) (count_of n j i) (take-IsHalf _ b);
        out_length = length-set r.out (i - 1) _ ∙ v.out_length;
        out_halves = All-set IsHalf r.out (i - 1) _ v.out_halves (drop-IsHalf _ b);
      }

  unwrap_step-counted_step :
      (j i : ℕ) (r : Registers)
      → i - 1 < n
      → AreHalves n r
      → unwrap_step rk n j i (counted_step rk n j i r) ≡ r
  unfolding unwrap_step counted_step
  unwrap_step-counted_step j i r h v =
      let k = i - 1 in
      let x = r.a ++ get_or r.out k [] in
      let b = aes128_encrypt rk x in
      let half = take-IsHalf b (encrypt-IsBlock rk x keys (counted-IsBlock i r h v)) in
      let same : aes128_decrypt rk (
            counted (counted (take 8 b) (count_of n j i)) (count_of n j i)
            ++ get_or (set r.out k (drop 8 b)) k [])
          ≡ x =
        ap (aes128_decrypt rk) (
          ap₂ ◌++◌ (counted-twice (take 8 b) (count_of n j i) half.eight)
            (get_or-set_self r.out k (drop 8 b) [] (omega (arith, v.out_length)))
          ∙ take-append_drop 8 b)
        ∙ decrypt-encrypt rk x keys (counted-IsBlock i r h v) in
      registers_eq (ap (take 8) same ∙ take-halves r.a (get_or r.out k []) v.a_half.eight) (
        set-set r.out k (drop 8 b) _
        ∙ ap (set r.out k) (ap (drop 8) same ∙ drop-halves r.a (get_or r.out k []) v.a_half.eight)
        ∙ set-get_or r.out k [])
    where
      registers_eq :
          {a a' : List ℕ} {out out' : List (List ℕ)}
          → a ≡ a'
          → out ≡ out'
          → ◌≡◌ {A = Registers} (record { a = a; out = out }) (record { a = a'; out = out' })
      registers_eq p q = λ i. record { a = p i; out = q i }

  counted_inner-AreHalves :
      (j i : ℕ) (r : Registers) → i ≤ n → AreHalves n r → AreHalves n (counted_inner rk n j i r)
  unfolding counted_inner
  counted_inner-AreHalves j zero r h v = v
  counted_inner-AreHalves j (suc i) r h v =
      counted_step-AreHalves j (suc i) (counted_inner rk n j i r) (omega arith)
        (counted_inner-AreHalves j i r (omega arith) v)

  unwrap_inner-counted_inner :
      (j i : ℕ) (r : Registers)
      → i ≤ n
      → AreHalves n r
      → unwrap_inner rk n j i (counted_inner rk n j i r) ≡ r
  unfolding unwrap_inner counted_inner
  unwrap_inner-counted_inner j zero r h v = refl
  unwrap_inner-counted_inner j (suc i) r h v =
      ap (unwrap_inner rk n j i) (
        unwrap_step-counted_step j (suc i) (counted_inner rk n j i r) (omega arith)
          (counted_inner-AreHalves j i r (omega arith) v))
      ∙ unwrap_inner-counted_inner j i r (omega arith) v

  counted_outer-AreHalves :
      (j : ℕ) (r : Registers) → AreHalves n r → AreHalves n (counted_outer rk n j r)
  unfolding counted_outer
  counted_outer-AreHalves zero r v = v
  counted_outer-AreHalves (suc j) r v =
      counted_inner-AreHalves j n (counted_outer rk n j r) (omega arith)
        (counted_outer-AreHalves j r v)

  unwrap_outer-counted_outer :
      (j : ℕ) (r : Registers) → AreHalves n r → unwrap_outer rk n j (counted_outer rk n j r) ≡ r
  unfolding unwrap_outer counted_outer
  unwrap_outer-counted_outer zero r v = refl
  unwrap_outer-counted_outer (suc j) r v =
      ap (unwrap_outer rk n j) (
        unwrap_inner-counted_inner j n (counted_outer rk n j r) (omega arith)
          (counted_outer-AreHalves j r v))
      ∙ unwrap_outer-counted_outer j r v

  wrap_step-counted_step :
      (j i : ℕ) (r : Registers)
      → i - 1 < n
      → n * j + i < 2 ^ 32
      → AreHalves n r
      → wrap_step rk n j i r ≡ counted_step rk n j i r
  unfolding counted_step
  wrap_step-counted_step j i r h q v =
      let x = r.a ++ get_or r.out (i - 1) [] in
      let half = take-IsHalf _ (encrypt-IsBlock rk x keys (counted-IsBlock i r h v)) in
      ap (λ a. with_first a (set r.out (i - 1) (drop 8 (aes128_encrypt rk x))))
        (counted-bytes64 (take 8 (aes128_encrypt rk x)) n j i half.eight q)
    where
      with_first : List ℕ → List (List ℕ) → Registers
      with_first a out = record { a = a; out = out }

  wrap_inner-counted_inner :
      (j i : ℕ) (r : Registers)
      → i ≤ n
      → n * j + n < 2 ^ 32
      → AreHalves n r
      → wrap_inner rk n j i r ≡ counted_inner rk n j i r
  unfolding counted_inner
  wrap_inner-counted_inner j zero r h q v = refl
  wrap_inner-counted_inner j (suc i) r h q v =
      ap (wrap_step rk n j (suc i)) (wrap_inner-counted_inner j i r (omega arith) q v)
      ∙ wrap_step-counted_step j (suc i) (counted_inner rk n j i r) (omega arith) (omega arith)
          (counted_inner-AreHalves j i r (omega arith) v)

  wrap_outer-counted_outer :
      (j : ℕ) (r : Registers)
      → n * j < 2 ^ 32
      → AreHalves n r
      → wrap_outer rk n j r ≡ counted_outer rk n j r
  unfolding counted_outer
  wrap_outer-counted_outer zero r q v = refl
  wrap_outer-counted_outer (suc j) r q v =
      ap (wrap_inner rk n j n) (wrap_outer-counted_outer j r (omega (arith, times n j q)) v)
      ∙ wrap_inner-counted_inner j n (counted_outer rk n j r) (omega arith) (times n j q)
          (counted_outer-AreHalves j r v)
    where
      times : (n j : ℕ) → n * suc j < 2 ^ 32 → n * j + n < 2 ^ 32
      times n j q = subst (λ m. m < 2 ^ 32) (mul-suc n j) q

abbrev initial_value : List ℕ
initial_value = 0xa6 ∷ 0xa6 ∷ 0xa6 ∷ 0xa6 ∷ 0xa6 ∷ 0xa6 ∷ 0xa6 ∷ 0xa6 ∷ []

-- The wrapping of a key of `n` blocks by RFC 3394: six rounds over its blocks, from the default
-- initial value on.
abbrev pub wrap : List ℕ → List (List ℕ) → List ℕ
wrap kek key =
    let r = wrap_outer (aes128_init kek) (length key) 6 (record { a = initial_value; out = key }) in
    r.a ++ joined8 r.out

blocks8-joined8 : (bs : List (List ℕ)) → All IsHalf bs → blocks8 (length bs) (joined8 bs) ≡ bs
unfolding blocks8 joined8
blocks8-joined8 [] h = refl
blocks8-joined8 (b ∷ bs) h =
    ap₂ ◌∷◌ (take-halves b (joined8 bs) h.0.eight)
      (ap (blocks8 (length bs)) (drop-halves b (joined8 bs) h.0.eight) ∙ blocks8-joined8 bs h.1)

-- A key of blocks of eight bytes that is wrapped as RFC 3394 says is unwrapped with the same key
-- encryption key, and nothing is reported. The wrapping takes less than 2 ^ 32 steps.
pub aes_unwrap-wrap :
    (kek : List ℕ) (key : List (List ℕ))
    → AreBytes kek
    → All IsHalf key
    → length key * 6 < 2 ^ 32
    → aes_unwrap kek (length key) (wrap kek key) ≡ some (joined8 key)
unfolding aes_unwrap
aes_unwrap-wrap kek key k v q =
    ap (λ (r : Registers). aes_unwrap kek n (r.a ++ joined8 r.out))
      (wrap_outer-counted_outer rk keys n 6 start q start_halves)
    ∙ ap finished (
        ap (unwrap_outer rk n 6) (
          ap₂ both (take-halves w.a (joined8 w.out) w_halves.a_half.eight) (
            ap (blocks8 n) (drop-halves w.a (joined8 w.out) w_halves.a_half.eight)
            ∙ ap (λ m. blocks8 m (joined8 w.out)) (sym w_halves.out_length)
            ∙ blocks8-joined8 w.out w_halves.out_halves))
        ∙ unwrap_outer-counted_outer rk keys n 6 start start_halves)
    ∙ unfold same_bytes in refl
  where
    rk : List ℕ
    rk = aes128_init kek

    n : ℕ
    n = length key

    keys : AreBytes rk
    keys = AreBytes-aes128_init kek k

    start : Registers
    start = record { a = default_iv; out = key }

    start_halves : AreHalves n start
    start_halves = record {
      a_half = record { eight = refl; bytes = omega arith };
      out_length = refl;
      out_halves = v;
    }

    w : Registers
    w = counted_outer rk n 6 start

    w_halves : AreHalves n w
    w_halves = counted_outer-AreHalves rk keys n 6 start start_halves

    both : List ℕ → List (List ℕ) → Registers
    both a out = record { a = a; out = out }

    finished : Registers → Option (List ℕ)
    finished r = if same_bytes r.a default_iv then some (joined8 r.out) else none
