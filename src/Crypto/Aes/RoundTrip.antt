-- ===== src/Crypto/Aes/RoundTrip.antt =====
-- Decryption undoes encryption.
use mathlib.Core.Path.{ap₂}
use teatime_os.Base.{
  ℕ, zero, suc, ◌*◌, ◌<◌, ◌≡◌, refl, sym, ap, ◌∙◌, subst, inl, inr, true, List, [], ◌∷◌, map,
  length, get_or, AreBytes, arith, ◌==◌, ==→eq, ltb, lt→ltb, if-true, Bool-cases, bit_xor_cancel,
}
use teatime_os.Crypto.Tables.{inv_sbox}
use teatime_os.Crypto.Aes.{
  xtime, xor_bytes, substituted, mixed0, mixed1, mixed2, mixed3, sum4, mul, shift_rows,
  inv_shift_rows, mix_columns, inv_mix_columns, round_key, encrypt_round, aes128_encrypt,
  decrypt_round, decrypt_loop, aes128_decrypt, aes128_init,
}
use teatime_os.Crypto.Aes.Field.{
  passes, passes-at, xtime-byte, xtime-mixed0, xtime-mixed1, xtime-mixed2, xtime-mixed3, products,
}
use teatime_os.Crypto.Aes.Back.{back0, back1, back2, back3}
use teatime_os.Crypto.Aes.Bytes.{
  AreBytes-take, AreBytes-drop, AreBytes-xor_bytes, length-xor_bytes, AreBytes-substituted,
  AreBytes-shift_rows, AreBytes-mix_columns, length-mix_columns, AreBytes-aes128_init,
}

-- The same key twice gives back what was there, whatever the lengths.
pub xor_bytes-twice : (s k : List ℕ) → xor_bytes (xor_bytes s k) k ≡ s
unfolding xor_bytes
xor_bytes-twice [] k = refl
xor_bytes-twice (a ∷ s) [] = refl
xor_bytes-twice (a ∷ s) (b ∷ k) = ap₂ ◌∷◌ (bit_xor_cancel a b) (xor_bytes-twice s k)

abbrev resubstituted : ℕ → ℕ
resubstituted x = get_or inv_sbox x 0

inverse_table : passes (λ x. resubstituted (substituted x) == x) 256 ≡ true
unfolding passes
inverse_table = refl

map-resubstituted : (s : List ℕ) → AreBytes s → map resubstituted (map substituted s) ≡ s
map-resubstituted [] h = refl
map-resubstituted (x ∷ s) h =
    ap₂ ◌∷◌
      (==→eq _ x (passes-at (λ x. resubstituted (substituted x) == x) 256 x h.0 inverse_table))
      (map-resubstituted s h.1)

-- Lists of 16 are what the rows are shifted in.
inv_shift_rows-shift_rows : (s : List ℕ) → length s ≡ 16 → inv_shift_rows (shift_rows s) ≡ s
unfolding inv_shift_rows shift_rows
inv_shift_rows-shift_rows (a ∷ b ∷ c ∷ d ∷ e ∷ f ∷ g ∷ h ∷ i ∷ j ∷ k ∷ l ∷ m ∷ n ∷ o ∷ p ∷ []) q =
    refl
inv_shift_rows-shift_rows _ q = absurd (omega (arith, q))

length-map-substituted : (s : List ℕ) → length (map substituted s) ≡ length s
length-map-substituted [] = refl
length-map-substituted (x ∷ s) = ap suc (length-map-substituted s)

sum4-eq :
    {a a' b b' c c' d d' : ℕ} → a ≡ a' → b ≡ b' → c ≡ c' → d ≡ d' → sum4 a b c d ≡ sum4 a' b' c' d'
sum4-eq p q r s = λ i. sum4 (p i) (q i) (r i) (s i)

-- A mixed column is mixed back.
module _ (a b c d : ℕ) (p : a < 256) (q : b < 256) (r : c < 256) (s : d < 256) where
  power00 : xtime (mixed0 a b c d) ≡ mixed0 (xtime a) (xtime b) (xtime c) (xtime d)
  power00 = xtime-mixed0 a b c d p q r s

  power01 :
      xtime (mixed0 (xtime a) (xtime b) (xtime c) (xtime d))
      ≡ mixed0 (xtime (xtime a)) (xtime (xtime b)) (xtime (xtime c)) (xtime (xtime d))
  power01 =
      xtime-mixed0 (xtime a) (xtime b) (xtime c) (xtime d) (xtime-byte a) (xtime-byte b)
        (xtime-byte c) (xtime-byte d)

  power02 :
      xtime (mixed0 (xtime (xtime a)) (xtime (xtime b)) (xtime (xtime c)) (xtime (xtime d)))
      ≡ mixed0
          (xtime (xtime (xtime a)))
          (xtime (xtime (xtime b)))
          (xtime (xtime (xtime c)))
          (xtime (xtime (xtime d)))
  power02 =
      xtime-mixed0 (xtime (xtime a)) (xtime (xtime b)) (xtime (xtime c)) (xtime (xtime d))
        (xtime-byte (xtime a)) (xtime-byte (xtime b)) (xtime-byte (xtime c)) (xtime-byte (xtime d))

  power10 : xtime (mixed1 a b c d) ≡ mixed1 (xtime a) (xtime b) (xtime c) (xtime d)
  power10 = xtime-mixed1 a b c d p q r s

  power11 :
      xtime (mixed1 (xtime a) (xtime b) (xtime c) (xtime d))
      ≡ mixed1 (xtime (xtime a)) (xtime (xtime b)) (xtime (xtime c)) (xtime (xtime d))
  power11 =
      xtime-mixed1 (xtime a) (xtime b) (xtime c) (xtime d) (xtime-byte a) (xtime-byte b)
        (xtime-byte c) (xtime-byte d)

  power12 :
      xtime (mixed1 (xtime (xtime a)) (xtime (xtime b)) (xtime (xtime c)) (xtime (xtime d)))
      ≡ mixed1
          (xtime (xtime (xtime a)))
          (xtime (xtime (xtime b)))
          (xtime (xtime (xtime c)))
          (xtime (xtime (xtime d)))
  power12 =
      xtime-mixed1 (xtime (xtime a)) (xtime (xtime b)) (xtime (xtime c)) (xtime (xtime d))
        (xtime-byte (xtime a)) (xtime-byte (xtime b)) (xtime-byte (xtime c)) (xtime-byte (xtime d))

  power20 : xtime (mixed2 a b c d) ≡ mixed2 (xtime a) (xtime b) (xtime c) (xtime d)
  power20 = xtime-mixed2 a b c d p q r s

  power21 :
      xtime (mixed2 (xtime a) (xtime b) (xtime c) (xtime d))
      ≡ mixed2 (xtime (xtime a)) (xtime (xtime b)) (xtime (xtime c)) (xtime (xtime d))
  power21 =
      xtime-mixed2 (xtime a) (xtime b) (xtime c) (xtime d) (xtime-byte a) (xtime-byte b)
        (xtime-byte c) (xtime-byte d)

  power22 :
      xtime (mixed2 (xtime (xtime a)) (xtime (xtime b)) (xtime (xtime c)) (xtime (xtime d)))
      ≡ mixed2
          (xtime (xtime (xtime a)))
          (xtime (xtime (xtime b)))
          (xtime (xtime (xtime c)))
          (xtime (xtime (xtime d)))
  power22 =
      xtime-mixed2 (xtime (xtime a)) (xtime (xtime b)) (xtime (xtime c)) (xtime (xtime d))
        (xtime-byte (xtime a)) (xtime-byte (xtime b)) (xtime-byte (xtime c)) (xtime-byte (xtime d))

  power30 : xtime (mixed3 a b c d) ≡ mixed3 (xtime a) (xtime b) (xtime c) (xtime d)
  power30 = xtime-mixed3 a b c d p q r s

  power31 :
      xtime (mixed3 (xtime a) (xtime b) (xtime c) (xtime d))
      ≡ mixed3 (xtime (xtime a)) (xtime (xtime b)) (xtime (xtime c)) (xtime (xtime d))
  power31 =
      xtime-mixed3 (xtime a) (xtime b) (xtime c) (xtime d) (xtime-byte a) (xtime-byte b)
        (xtime-byte c) (xtime-byte d)

  power32 :
      xtime (mixed3 (xtime (xtime a)) (xtime (xtime b)) (xtime (xtime c)) (xtime (xtime d)))
      ≡ mixed3
          (xtime (xtime (xtime a)))
          (xtime (xtime (xtime b)))
          (xtime (xtime (xtime c)))
          (xtime (xtime (xtime d)))
  power32 =
      xtime-mixed3 (xtime (xtime a)) (xtime (xtime b)) (xtime (xtime c)) (xtime (xtime d))
        (xtime-byte (xtime a)) (xtime-byte (xtime b)) (xtime-byte (xtime c)) (xtime-byte (xtime d))

  column0 :
      sum4
        (mul (mixed0 a b c d) 14)
        (mul (mixed1 a b c d) 11)
        (mul (mixed2 a b c d) 13)
        (mul (mixed3 a b c d) 9)
      ≡ a
  column0 =
      sum4-eq (products _ _ _ _ power00 power01 power02).0
        (products _ _ _ _ power10 power11 power12).1 (products _ _ _ _ power20 power21 power22).2
        (products _ _ _ _ power30 power31 power32).3
      ∙ back0 a (xtime a) (xtime (xtime a)) (xtime (xtime (xtime a)))
          (xtime (xtime (xtime (xtime a)))) b (xtime b) (xtime (xtime b)) (xtime (xtime (xtime b)))
          (xtime (xtime (xtime (xtime b)))) c (xtime c) (xtime (xtime c)) (xtime (xtime (xtime c)))
          (xtime (xtime (xtime (xtime c)))) d (xtime d) (xtime (xtime d)) (xtime (xtime (xtime d)))
          (xtime (xtime (xtime (xtime d))))

  column1 :
      sum4
        (mul (mixed0 a b c d) 9)
        (mul (mixed1 a b c d) 14)
        (mul (mixed2 a b c d) 11)
        (mul (mixed3 a b c d) 13)
      ≡ b
  column1 =
      sum4-eq (products _ _ _ _ power00 power01 power02).3
        (products _ _ _ _ power10 power11 power12).0 (products _ _ _ _ power20 power21 power22).1
        (products _ _ _ _ power30 power31 power32).2
      ∙ back1 a (xtime a) (xtime (xtime a)) (xtime (xtime (xtime a)))
          (xtime (xtime (xtime (xtime a)))) b (xtime b) (xtime (xtime b)) (xtime (xtime (xtime b)))
          (xtime (xtime (xtime (xtime b)))) c (xtime c) (xtime (xtime c)) (xtime (xtime (xtime c)))
          (xtime (xtime (xtime (xtime c)))) d (xtime d) (xtime (xtime d)) (xtime (xtime (xtime d)))
          (xtime (xtime (xtime (xtime d))))

  column2 :
      sum4
        (mul (mixed0 a b c d) 13)
        (mul (mixed1 a b c d) 9)
        (mul (mixed2 a b c d) 14)
        (mul (mixed3 a b c d) 11)
      ≡ c
  column2 =
      sum4-eq (products _ _ _ _ power00 power01 power02).2
        (products _ _ _ _ power10 power11 power12).3 (products _ _ _ _ power20 power21 power22).0
        (products _ _ _ _ power30 power31 power32).1
      ∙ back2 a (xtime a) (xtime (xtime a)) (xtime (xtime (xtime a)))
          (xtime (xtime (xtime (xtime a)))) b (xtime b) (xtime (xtime b)) (xtime (xtime (xtime b)))
          (xtime (xtime (xtime (xtime b)))) c (xtime c) (xtime (xtime c)) (xtime (xtime (xtime c)))
          (xtime (xtime (xtime (xtime c)))) d (xtime d) (xtime (xtime d)) (xtime (xtime (xtime d)))
          (xtime (xtime (xtime (xtime d))))

  column3 :
      sum4
        (mul (mixed0 a b c d) 11)
        (mul (mixed1 a b c d) 13)
        (mul (mixed2 a b c d) 9)
        (mul (mixed3 a b c d) 14)
      ≡ d
  column3 =
      sum4-eq (products _ _ _ _ power00 power01 power02).1
        (products _ _ _ _ power10 power11 power12).2 (products _ _ _ _ power20 power21 power22).3
        (products _ _ _ _ power30 power31 power32).0
      ∙ back3 a (xtime a) (xtime (xtime a)) (xtime (xtime (xtime a)))
          (xtime (xtime (xtime (xtime a)))) b (xtime b) (xtime (xtime b)) (xtime (xtime (xtime b)))
          (xtime (xtime (xtime (xtime b)))) c (xtime c) (xtime (xtime c)) (xtime (xtime (xtime c)))
          (xtime (xtime (xtime (xtime c)))) d (xtime d) (xtime (xtime d)) (xtime (xtime (xtime d)))
          (xtime (xtime (xtime (xtime d))))

pub inv_mix_columns-mix_columns : (s : List ℕ) → AreBytes s → inv_mix_columns (mix_columns s) ≡ s
unfolding mix_columns inv_mix_columns
inv_mix_columns-mix_columns [] h = refl
inv_mix_columns-mix_columns (a ∷ []) h = refl
inv_mix_columns-mix_columns (a ∷ b ∷ []) h = refl
inv_mix_columns-mix_columns (a ∷ b ∷ c ∷ []) h = refl
inv_mix_columns-mix_columns (a ∷ b ∷ c ∷ d ∷ more) (p, (q, (r, (s, h)))) = λ i.
    column0 a b c d p q r s i
    ∷ column1 a b c d p q r s i
    ∷ column2 a b c d p q r s i
    ∷ column3 a b c d p q r s i
    ∷ inv_mix_columns-mix_columns more h i

pub record IsBlock (s : List ℕ) : Type 0 where
  pub sixteen : length s ≡ 16
  pub bytes : AreBytes s

abbrev turned : List ℕ → List ℕ
turned s = shift_rows (map substituted s)

turned-IsBlock : (s : List ℕ) → IsBlock s → IsBlock (turned s)
turned-IsBlock s v = record {
  sixteen = unfold shift_rows in refl;
  bytes = AreBytes-shift_rows (map substituted s) (AreBytes-substituted s v.bytes);
}

turned_back : (s : List ℕ) → IsBlock s → map resubstituted (inv_shift_rows (turned s)) ≡ s
turned_back s v =
    ap (map resubstituted)
      (inv_shift_rows-shift_rows (map substituted s) (length-map-substituted s ∙ v.sixteen))
    ∙ map-resubstituted s v.bytes

module _ (rk block : List ℕ) (keys : AreBytes rk) (v : IsBlock block) where
  -- The block after some rounds.
  after : ℕ → List ℕ
  after zero = xor_bytes block (round_key rk 0)
  after (suc n) = encrypt_round rk (suc n) (after n)

  round_key-bytes : (n : ℕ) → AreBytes (round_key rk n)
  round_key-bytes n = AreBytes-take 16 _ (AreBytes-drop (n * 16) rk keys)

  keyed : (n : ℕ) (t : List ℕ) → IsBlock t → IsBlock (xor_bytes t (round_key rk n))
  keyed n t w = record {
    sixteen = length-xor_bytes t (round_key rk n) ∙ w.sixteen;
    bytes = AreBytes-xor_bytes t (round_key rk n) w.bytes (round_key-bytes n);
  }

  encrypt_round-IsBlock : (n : ℕ) (s : List ℕ) → IsBlock s → IsBlock (encrypt_round rk n s)
  unfolding encrypt_round
  encrypt_round-IsBlock n s w =
      let t = turned-IsBlock s w in
      elim (Bool-cases (ltb n 10)) [
        | inl e ↦
            rw (e, encrypt_round)
              (keyed n (mix_columns (turned s)) (record {
                sixteen = length-mix_columns (turned s) ∙ t.sixteen;
                bytes = AreBytes-mix_columns (turned s) t.bytes;
              }))
        | inr e ↦ rw (e, encrypt_round) (keyed n (turned s) t)
      ]

  after-IsBlock : (n : ℕ) → IsBlock (after n)
  unfolding after
  after-IsBlock zero = keyed 0 block v
  after-IsBlock (suc n) = encrypt_round-IsBlock (suc n) (after n) (after-IsBlock n)

  undo : (r : ℕ) → r < 10 → decrypt_loop rk (suc r) (turned (after r)) ≡ block
  unfolding decrypt_loop decrypt_round after
  undo zero h =
      ap (λ s. xor_bytes s (round_key rk 0)) (turned_back (after 0) (after-IsBlock 0))
      ∙ xor_bytes-twice block (round_key rk 0)
  undo (suc r) h = ap (decrypt_loop rk (suc r)) step ∙ undo r (omega arith)
    where
      mixes : after (suc r) ≡ xor_bytes (mix_columns (turned (after r))) (round_key rk (suc r))
      mixes =
          unfold encrypt_round in
          (ap (λ t. xor_bytes t (round_key rk (suc r))) (if-true _ _ _ (lt→ltb (suc r) 10 h)))

      step : decrypt_round rk (suc r) (turned (after (suc r))) ≡ turned (after r)
      step =
          if-true _ _ _ (lt→ltb 0 (suc r) (omega arith))
          ∙ ap (λ s. inv_mix_columns (xor_bytes s (round_key rk (suc r))))
              (turned_back (after (suc r)) (after-IsBlock (suc r)) ∙ mixes)
          ∙ ap inv_mix_columns
              (xor_bytes-twice (mix_columns (turned (after r))) (round_key rk (suc r)))
          ∙ inv_mix_columns-mix_columns (turned (after r))
              (turned-IsBlock (after r) (after-IsBlock r)).bytes

  encrypt_after : aes128_encrypt rk block ≡ after 10
  unfolding aes128_encrypt after
  encrypt_after = refl

  pub encrypt-IsBlock : IsBlock (aes128_encrypt rk block)
  encrypt-IsBlock = subst IsBlock (sym encrypt_after) (after-IsBlock 10)

  pub decrypt-encrypt : aes128_decrypt rk (aes128_encrypt rk block) ≡ block
  unfolding aes128_decrypt
  decrypt-encrypt =
      ap (λ c. decrypt_loop rk 10 (xor_bytes c (round_key rk 10))) (encrypt_after ∙ last)
      ∙ ap (decrypt_loop rk 10) (xor_bytes-twice (turned (after 9)) (round_key rk 10))
      ∙ undo 9 (omega arith)
    where
      last : after 10 ≡ xor_bytes (turned (after 9)) (round_key rk 10)
      last = unfold after encrypt_round in refl

-- For every key and every block of 16 bytes, decryption with the key schedule of the key gives back
-- what was encrypted with it.
pub aes128_decrypt-aes128_encrypt :
    (key block : List ℕ)
    → AreBytes key
    → IsBlock block
    → aes128_decrypt (aes128_init key) (aes128_encrypt (aes128_init key) block) ≡ block
aes128_decrypt-aes128_encrypt key block k v =
    decrypt-encrypt (aes128_init key) block (AreBytes-aes128_init key k) v
