-- ===== src/Crypto/Wpa/Agreement.antt =====
-- The two ends of a handshake derive the same keys.
use mathlib.Core.Path.{ap₂}
use teatime_os.Base.{
  ℕ, List, [], ◌∷◌, ◌++◌, ◌≡◌, refl, ap, sym, ◌∙◌, true, false, length, ltb, ◌==◌, Bool-cases, inl,
  inr, ==→eq, le→ltb, ltb→lt, arith,
}
use teatime_os.Crypto.Hmac.{sha1_prf}
use teatime_os.Crypto.Wpa.{precedes, lower, higher, label, derive_ptk}

-- Of two regions of one length, one precedes the other or they are the same.
record Compared (a b : List ℕ) : Type 0 where
  lows : lower a b ≡ lower b a
  highs : higher a b ≡ higher b a

precedes_same : (x y : ℕ) (a b : List ℕ) → (x == y) ≡ true → precedes (x ∷ a) (y ∷ b) ≡ precedes a b
unfolding precedes
precedes_same x y a b q = rw (q, precedes) refl

precedes_differ : (x y : ℕ) (a b : List ℕ) → (x == y) ≡ false → precedes (x ∷ a) (y ∷ b) ≡ ltb x y
unfolding precedes
precedes_differ x y a b q = rw (q, precedes) refl

turned : (x y : ℕ) → (y == x) ≡ (x == y)
turned x y = elim (Bool-cases (x == y)) [ inl q ↦ ground (arith, q) | inr q ↦ ground (arith, q) ]

same_order : (a b : List ℕ) → length a ≡ length b → precedes a b ≡ true → precedes b a ≡ false
unfolding precedes
same_order [] b h e = cc
same_order (x ∷ a) [] h e = cc
same_order (x ∷ a) (y ∷ b) h e = elim (Bool-cases (x == y)) [
  | inl q ↦
      precedes_same y x b a (turned x y ∙ q)
      ∙ same_order a b (omega (arith, h)) (sym (precedes_same x y a b q) ∙ e)
  | inr q ↦
      precedes_differ y x b a (turned x y ∙ q)
      ∙ le→ltb y x (omega (arith, ltb→lt x y (sym (precedes_differ x y a b q) ∙ e)))
]

unordered :
    (a b : List ℕ) → length a ≡ length b → precedes a b ≡ false → precedes b a ≡ false → a ≡ b
unfolding precedes
unordered [] [] h e f = refl
unordered [] (y ∷ b) h e f = absurd (omega (arith, h))
unordered (x ∷ a) [] h e f = absurd (omega (arith, h))
unordered (x ∷ a) (y ∷ b) h e f = elim (Bool-cases (x == y)) [
  | inl q ↦ ap₂ ◌∷◌ (==→eq x y q) (
      unordered a b (omega (arith, h)) (sym (precedes_same x y a b q) ∙ e)
        (sym (precedes_same y x b a (turned x y ∙ q)) ∙ f))
  | inr q ↦
      let up : ltb x y ≡ false = sym (precedes_differ x y a b q) ∙ e in
      let down : ltb y x ≡ false = sym (precedes_differ y x b a (turned x y ∙ q)) ∙ f in
      absurd (ground (arith, up, down, q))
]

compared : (a b : List ℕ) → length a ≡ length b → Compared a b
compared a b h = elim (Bool-cases (precedes a b)) [
  | inl e ↦ record {
    lows = unfold lower in (rw (e, same_order a b h e) refl);
    highs = unfold higher in (rw (e, same_order a b h e) refl);
  }
  | inr e ↦ elim (Bool-cases (precedes b a)) [
    | inl f ↦ record {
      lows = unfold lower in (rw (e, f) refl);
      highs = unfold higher in (rw (e, f) refl);
    }
    | inr f ↦
        let same : a ≡ b = unordered a b h e f in
        record { lows = rw same refl; highs = rw same refl }
  ]
]

-- The access point and the station derive the same pairwise keys, whichever of the two addresses and of
-- the two nonces each puts first, for addresses of one length and nonces of one length.
pub derive_ptk-agrees :
    (pmk ap_bssid mac_addr anonce snonce : List ℕ)
    → length ap_bssid ≡ length mac_addr
    → length anonce ≡ length snonce
    → derive_ptk pmk ap_bssid mac_addr anonce snonce
      ≡ derive_ptk pmk mac_addr ap_bssid snonce anonce
unfolding derive_ptk
derive_ptk-agrees pmk a b n m h k =
    let addrs = compared a b h in
    let nonces = compared n m k in
    ap (λ s. sha1_prf pmk label s 48)
      (ap₂ ◌++◌ (ap₂ ◌++◌ (ap₂ ◌++◌ addrs.lows addrs.highs) nonces.lows) nonces.highs)
