-- ===== src/Runtime/Text/Compare.antt =====
-- strcmp and strcasecmp on texts.
use mathlib.Core.Path.{ap₂}
use teatime_os.Base.{
  ℕ, zero, suc, ◌+◌, ◌<◌, ◌≡◌, ◌≢◌, ◌↔◌, refl, sym, ap, ◌∙◌, inl, inr, List, [], ◌∷◌, map, some,
  arith, ◌==◌, length, Bool-cases, All, sub32, ==→eq, ne→==, false,
}
use teatime_os.Runtime.Memory.{Memory}
use teatime_os.Runtime.Text.{IsText, compare_texts, strcmp, tolower, strcasecmp}

abbrev pub IsBytes : List ℕ → Type 0
IsBytes = All (λ c. c < 256)

-- A reading of bytes under which only the NUL is the NUL.
record IsReading (f : ℕ → ℕ) : Type 0 where
  small : (c : ℕ) → c < 256 → f c < 256
  zero_only : (c : ℕ) → f c ≡ f 0 → c ≡ 0

module _ (f : ℕ → ℕ) (r : IsReading f) where
  head_eq :
      (c d : ℕ) (s t : List ℕ) → map f (c ∷ s) ≡ map f (d ∷ t) → (f c ≡ f d) × (map f s ≡ map f t)
  head_eq c d s t e = (cc e, cc e)

  sub32-zero : (c d : ℕ) → c < 256 → d < 256 → f c ≢ f d → sub32 (f c) (f d) ≢ 0
  sub32-zero c d hc hd h e = h (omega (arith, r.small c hc, r.small d hd))

  -- The loop ends where the two bytes read differently.
  different :
      (c d : ℕ) (s t : List ℕ)
      → c < 256
      → d < 256
      → f c ≢ f d
      → (sub32 (f c) (f d) ≡ 0) ↔ (map f (c ∷ s) ≡ map f (d ∷ t))
  different c d s t hc hd h =
      (λ e. absurd (sub32-zero c d hc hd h e), λ e. absurd (h (head_eq c d s t e).0))

  compare_texts_lem :
      (rounds a b : ℕ) (s t : List ℕ) (m : Memory)
      → IsText m a s
      → IsText m b t
      → IsBytes s
      → IsBytes t
      → length s < rounds
      → (w : ℕ) × (compare_texts f rounds a b m ≡ some w) × ((w ≡ 0) ↔ (map f s ≡ map f t))
  unfolding compare_texts
  compare_texts_lem zero a b s t m u v hs ht h = absurd (omega arith)
  compare_texts_lem (suc rounds) a b [] [] m u v hs ht h =
      (sub32 (f 0) (f 0), rw (u, v) refl, (λ e. refl, λ e. omega (arith, r.small 0 (omega arith))))
  compare_texts_lem (suc rounds) a b [] (d ∷ t) m u v hs ht h = (
    sub32 (f 0) (f d),
    rw (u, v.0) refl,
    (
      λ e. absurd (sub32-zero 0 d (omega arith) ht.0 (λ g. v.1 (r.zero_only d (sym g))) e),
      λ e. absurd (cc e),
    ),
  )
  compare_texts_lem (suc rounds) a b (c ∷ s) [] m u v hs ht h =
      let nonzero : (c == 0) ≡ false = ne→== c 0 u.1 in
      let differs : (f c == f 0) ≡ false = ne→== (f c) (f 0) (λ g. u.1 (r.zero_only c g)) in
      (
        sub32 (f c) (f 0),
        rw (u.0, v, nonzero, differs) refl,
        (
          λ e. absurd (sub32-zero c 0 hs.0 (omega arith) (λ g. u.1 (r.zero_only c g)) e),
          λ e. absurd (cc e),
        ),
      )
  compare_texts_lem (suc rounds) a b (c ∷ s) (d ∷ t) m u v hs ht h =
      let nonzero : (c == 0) ≡ false = ne→== c 0 u.1 in
      elim (Bool-cases (f c == f d)) [
        | inl same ↦
            let (w, eq, iff) =
              compare_texts_lem rounds (a + 1) (b + 1) s t m u.2 v.2 hs.1 ht.1 (omega arith) in
            let heads : f c ≡ f d = ==→eq (f c) (f d) same in
            (
              w,
              rw (u.0, v.0, nonzero, same) eq,
              (λ e. ap₂ ◌∷◌ heads (iff.0 e), λ e. iff.1 (head_eq c d s t e).1),
            )
        | inr ne ↦ (
          sub32 (f c) (f d),
          rw (u.0, v.0, nonzero, ne) refl,
          different c d s t hs.0 ht.0 (ground (arith, ne)),
        )
      ]

map_self : (s : List ℕ) → map (λ c. c) s ≡ s
map_self [] = refl
map_self (c ∷ s) = ap (λ t. c ∷ t) (map_self s)

-- `strcmp` returns, and is 0 exactly if the two texts are the same.
pub strcmp_zero :
    (rounds a b : ℕ) (s t : List ℕ) (m : Memory)
    → IsText m a s
    → IsText m b t
    → IsBytes s
    → IsBytes t
    → length s < rounds
    → (w : ℕ) × (strcmp rounds a b m ≡ some w) × ((w ≡ 0) ↔ (s ≡ t))
unfolding strcmp
strcmp_zero rounds a b s t m u v hs ht h =
    let (w, eq, iff) =
      compare_texts_lem (λ c. c) (record { small = λ c h. h; zero_only = λ c e. e }) rounds a b s t
        m u v hs ht h in
    (w, eq, (λ e. sym (map_self s) ∙ iff.0 e ∙ map_self t, λ e. iff.1 (ap (map (λ c. c)) e)))

lower-IsReading : IsReading tolower
lower-IsReading = record { small = λ c h. ground arith; zero_only = λ c e. ground arith }

-- `strcasecmp` returns, and is 0 exactly if the two texts are the same once the letters A to Z are
-- read as a to z.
pub strcasecmp_zero :
    (rounds a b : ℕ) (s t : List ℕ) (m : Memory)
    → IsText m a s
    → IsText m b t
    → IsBytes s
    → IsBytes t
    → length s < rounds
    → (w : ℕ) × (strcasecmp rounds a b m ≡ some w) × ((w ≡ 0) ↔ (map tolower s ≡ map tolower t))
unfolding strcasecmp
strcasecmp_zero = compare_texts_lem tolower lower-IsReading
