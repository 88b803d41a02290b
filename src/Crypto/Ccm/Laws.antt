-- ===== src/Crypto/Ccm/Laws.antt =====
-- What is decrypted with success is exactly what was encrypted.
use mathlib.Core.Path.{ap₂}
use teatime_os.Base.{
  ℕ, ◌≡◌, refl, sym, ap, ◌∙◌, ◌↔◌, Bool, true, false, ◌&&◌, List, [], ◌∷◌, ◌==◌, ==→eq, ==-self,
  add32, bit_xor_cancel,
}
use teatime_os.Crypto.Aes.{aes128_init, aes128_encrypt}
use teatime_os.Crypto.Ccm.{
  counter_block, ctr_loop, ccm_ctr, mic_of, aes_ccm_encrypt, same_bytes, aes_ccm_decrypt,
}

-- The key stream does not depend on the data, so that it undoes itself.
ctr_loop-twice :
    (rk nonce : List ℕ) (ctr : ℕ) (ks s : List ℕ)
    → ctr_loop rk nonce ctr ks (ctr_loop rk nonce ctr ks s) ≡ s
unfolding ctr_loop
ctr_loop-twice rk nonce ctr ks [] = refl
ctr_loop-twice rk nonce ctr (k ∷ ks) (c ∷ s) =
    ap₂ ◌∷◌ (bit_xor_cancel c k) (ctr_loop-twice rk nonce ctr ks s)
ctr_loop-twice rk nonce ctr [] (c ∷ s) =
    refilled (aes128_encrypt rk (counter_block nonce ctr)) refl
      (λ ks. ctr_loop-twice rk nonce (add32 ctr 1) ks s)
  where
    refilled :
        (block : List ℕ)
        → aes128_encrypt rk (counter_block nonce ctr) ≡ block
        → ((ks : List ℕ)
            → ctr_loop rk nonce (add32 ctr 1) ks (ctr_loop rk nonce (add32 ctr 1) ks s) ≡ s)
        → ctr_loop rk nonce ctr [] (ctr_loop rk nonce ctr [] (c ∷ s)) ≡ c ∷ s
    refilled [] e ih = rw (e, ctr_loop, e, ctr_loop) (ap (λ t. c ∷ t) (ih []))
    refilled (k ∷ ks) e ih = rw (e, ctr_loop, e, ctr_loop) (ap₂ ◌∷◌ (bit_xor_cancel c k) (ih ks))

pub ccm_ctr-twice :
    (rk nonce : List ℕ) (counter : ℕ) (s : List ℕ)
    → ccm_ctr rk nonce counter (ccm_ctr rk nonce counter s) ≡ s
unfolding ccm_ctr
ccm_ctr-twice rk nonce counter s = ctr_loop-twice rk nonce counter [] s

pub same_bytes_self : (s : List ℕ) → same_bytes s s ≡ true
unfolding same_bytes
same_bytes_self [] = refl
same_bytes_self (a ∷ s) = rw (==-self a, same_bytes_self s) refl

same_bytes-eq : (s t : List ℕ) → same_bytes s t ≡ true → s ≡ t
unfolding same_bytes
same_bytes-eq [] [] h = refl
same_bytes-eq (a ∷ s) (b ∷ t) h =
    let (p, q) = both (a == b) (same_bytes s t) h in ap₂ ◌∷◌ (==→eq a b p) (same_bytes-eq s t q)
  where
    both : (x y : Bool) → (x && y) ≡ true → (x ≡ true) × (y ≡ true)
    both true y h = (refl, h)
    both false y h = cc
same_bytes-eq [] (b ∷ t) h = cc
same_bytes-eq (a ∷ s) [] h = cc

-- Decryption succeeds, and gives a text, exactly if that text encrypts to the cipher text and the
-- code at hand: what was encrypted comes back, and nothing else passes for any text.
pub aes_ccm_decrypt_iff :
    (key nonce aad cipher mic plain : List ℕ)
    → (aes_ccm_decrypt key nonce aad cipher mic ≡ (true, plain))
      ↔ (aes_ccm_encrypt key nonce aad plain ≡ (cipher, mic))
unfolding aes_ccm_decrypt aes_ccm_encrypt
aes_ccm_decrypt_iff key nonce aad cipher mic plain = (
  λ h.
      let right : same_bytes (mic_of rk nonce aad (ccm_ctr rk nonce 1 cipher)) mic ≡ true =
        ap (λ (r : Bool × List ℕ). r.0) h in
      let text : ccm_ctr rk nonce 1 cipher ≡ plain = ap (λ (r : Bool × List ℕ). r.1) h in
      pair_eq (ap (ccm_ctr rk nonce 1) (sym text) ∙ ccm_ctr-twice rk nonce 1 cipher)
        (ap (mic_of rk nonce aad) (sym text) ∙ same_bytes-eq _ mic right),
  λ h.
      let stream : ccm_ctr rk nonce 1 plain ≡ cipher = ap (λ (r : List ℕ × List ℕ). r.0) h in
      let code : mic_of rk nonce aad plain ≡ mic = ap (λ (r : List ℕ × List ℕ). r.1) h in
      let text = ap (ccm_ctr rk nonce 1) (sym stream) ∙ ccm_ctr-twice rk nonce 1 plain in
      pair_eq
        (ap (λ t. same_bytes t mic) (ap (mic_of rk nonce aad) text ∙ code) ∙ same_bytes_self mic)
        text,
)
  where
    rk : List ℕ
    rk = aes128_init key

    pair_eq :
        {A B : Type 0} {a a' : A} {b b' : B} → a ≡ a' → b ≡ b' → ◌≡◌ {A = A × B} (a, b) (a', b')
    pair_eq p q = λ i. (p i, q i)
