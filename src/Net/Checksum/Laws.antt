-- ===== src/Net/Checksum/Laws.antt =====
-- The checksum: its loop ends, and a packet that carries it sums to nothing.
use teatime_os.Base.{
  ℕ, suc, ◌+◌, ◌-◌, ◌*◌, ◌/◌, ◌%◌, ◌^◌, ◌≤◌, ◌<◌, ◌≡◌, refl, ◌∙◌, some, List, [], ◌∷◌, ◌++◌, length,
  dec_lt, arith, AreBytes,
}
use teatime_os.Net.Checksum.{checksum_partial, fold_loop, complement, checksum}

-- The sum without a bound.
pub sum16 : List ℕ → ℕ
sum16 [] = 0
sum16 (a ∷ []) = a
sum16 (a ∷ b ∷ s) = a + b * 256 + sum16 s

pub sum16_bound : (s : List ℕ) → AreBytes s → 2 * sum16 s ≤ 65535 * (length s + 1)
unfolding sum16
sum16_bound [] h = omega arith
sum16_bound (a ∷ []) h = omega arith
sum16_bound (a ∷ b ∷ s) h = omega (arith, sum16_bound s h.1.1)

-- The sum of the 16-bit words of a text in network byte order, an odd last byte filled up by a 0.
abbrev pub word_sum : List ℕ → ℕ
word_sum [] = 0
word_sum (a ∷ []) = a * 256
word_sum (a ∷ b ∷ s) = a * 256 + b + word_sum s

word_sum-sum16 : (s : List ℕ) → (k : ℕ) × (256 * sum16 s ≡ word_sum s + 65535 * k)
unfolding sum16
word_sum-sum16 [] = (0, refl)
word_sum-sum16 (a ∷ []) = (0, omega arith)
word_sum-sum16 (a ∷ b ∷ s) = let (k, e) = word_sum-sum16 s in (b + k, omega (arith, e))

pub word_sum-bound : (s : List ℕ) → sum16 s ≤ 256 * word_sum s
unfolding sum16
word_sum-bound [] = omega arith
word_sum-bound (a ∷ []) = omega arith
word_sum-bound (a ∷ b ∷ s) = omega (arith, word_sum-bound s)

pub checksum_partial-sum16 :
    (start : ℕ) (s : List ℕ)
    → AreBytes s
    → start + sum16 s < 2 ^ 32
    → checksum_partial start s ≡ start + sum16 s
unfolding checksum_partial sum16
checksum_partial-sum16 start [] h k = omega arith
checksum_partial-sum16 start (a ∷ []) h k = omega arith
checksum_partial-sum16 start (a ∷ b ∷ s) h k =
    let e : (start + (a + b * 256)) % 2 ^ 32 ≡ start + (a + b * 256) = omega arith in
    rw e (omega (arith, checksum_partial-sum16 (start + (a + b * 256)) s h.1.1 (omega arith)))

fold_loop_done : (rounds sum : ℕ) → sum < 65536 → fold_loop (suc rounds) sum ≡ some sum
unfolding fold_loop
fold_loop_done rounds sum h = ground arith

fold_loop_again :
    (rounds sum : ℕ)
    → 65536 ≤ sum
    → fold_loop (suc rounds) sum ≡ fold_loop rounds (sum % 65536 + sum / 65536)
unfolding fold_loop
fold_loop_again rounds sum h = ground arith

-- What the loop leaves of a sum.
pub record Folded (sum r : ℕ) : Type 0 where
  pub short : r < 65536
  pub same : r % 65535 ≡ sum % 65535
  pub nothing : r ≡ 0 → sum ≡ 0
  pub below : r ≤ sum

pub Folded-eq : {x y r : ℕ} → Folded x r → x ≡ y → Folded y r
Folded-eq f e = rw (← e) f

-- The loop of `checksum` ends after two rounds at most, whatever the 32-bit sum is; it leaves 16
-- bits that are the sum modulo 65535, 0 only of 0, and
-- never more than the sum.
pub fold_loop_ends :
    (rounds sum : ℕ)
    → sum < 2 ^ 32
    → (r : ℕ) × (fold_loop (suc (suc (suc rounds))) sum ≡ some r) × Folded sum r
fold_loop_ends rounds sum h = elim (dec_lt sum 65536) [
  | yes p ↦ (
    sum,
    fold_loop_done (suc (suc rounds)) sum p,
    record { short = p; same = refl; nothing = λ e. e; below = omega arith },
  )
  | no p ↦
      let s1 = sum % 65536 + sum / 65536 in
      elim (dec_lt s1 65536) [
        | yes q ↦ (
          s1,
          fold_loop_again (suc (suc rounds)) sum (omega arith) ∙ fold_loop_done (suc rounds) s1 q,
          record { short = q; same = omega arith; nothing = λ e. omega arith; below = omega arith },
        )
        | no q ↦
            let s2 = s1 % 65536 + s1 / 65536 in
            (
              s2,
              fold_loop_again (suc (suc rounds)) sum (omega arith)
                  ∙ fold_loop_again (suc rounds) s1 (omega arith)
                  ∙ fold_loop_done rounds s2 (omega arith),
              record {
                short = omega arith;
                same = omega arith;
                nothing = λ e. omega arith;
                below = omega arith;
              },
            )
      ]
]

pub checksum_folds :
    (s : List ℕ) (start : ℕ)
    → AreBytes s
    → start + sum16 s < 2 ^ 32
    → (r : ℕ) × (checksum s start ≡ 65535 - r) × Folded (start + sum16 s) r
unfolding checksum complement
checksum_folds s start b h =
    let (r, e, f) = fold_loop_ends 0 (start + sum16 s) h in
    let small : r % 65536 ≡ r = omega (arith, f.short) in
    (r, rw (checksum_partial-sum16 start s b h, e, small), f)

-- `a` fills whole words.
abbrev pub IsEven : List ℕ → Type 0
IsEven a = length a % 2 ≡ 0

pub sum16-append : (a b : List ℕ) → IsEven a → sum16 (a ++ b) ≡ sum16 a + sum16 b
unfolding sum16
sum16-append [] b h = omega arith
sum16-append (x ∷ []) b h = absurd (omega arith)
sum16-append (x ∷ y ∷ a) b h = omega (arith, sum16-append a b (omega arith))

pub AreBytes-append : (a b : List ℕ) → AreBytes a → AreBytes b → AreBytes (a ++ b)
AreBytes-append [] b h k = k
AreBytes-append (x ∷ a) b h k = (h.0, AreBytes-append a b h.1 k)

-- A packet `a ++ field ++ b` whose checksum field is at an even offset.
abbrev pub with_field : List ℕ → ℕ → List ℕ → List ℕ
with_field a c b = a ++ (c % 256) ∷ (c / 256) ∷ b

pub sum16-with_field :
    (a : List ℕ) (c : ℕ) (b : List ℕ)
    → IsEven a
    → c < 65536
    → sum16 (with_field a c b) ≡ sum16 a + c + sum16 b
sum16-with_field a c b even h =
    unfold sum16 in (omega (arith, sum16-append a ((c % 256) ∷ (c / 256) ∷ b) even))

pub AreBytes-with_field :
    (a : List ℕ) (c : ℕ) (b : List ℕ)
    → AreBytes a
    → AreBytes b
    → c < 65536
    → AreBytes (with_field a c b)
AreBytes-with_field a c b ha hb h =
    AreBytes-append a ((c % 256) ∷ (c / 256) ∷ b) ha (omega arith, (omega arith, hb))

-- The checksum of bytes whose own checksum field is 0 makes the sum come out at 0 once it is put
-- there: for a field at an even offset, whatever is summed up before, if the sum has room for it.
pub checksum-verifies :
    (a b : List ℕ) (start : ℕ)
    → AreBytes a
    → AreBytes b
    → IsEven a
    → start + sum16 a + sum16 b + 65535 < 2 ^ 32
    → checksum (with_field a (checksum (with_field a 0 b) start) b) start ≡ 0
checksum-verifies a b start ha hb even room =
    let e0 = sum16-with_field a 0 b even (omega arith) in
    let (r, e, f) =
      checksum_folds (with_field a 0 b) start (AreBytes-with_field a 0 b ha hb (omega arith))
        (omega (arith, e0)) in
    let c = 65535 - r in
    let e1 = sum16-with_field a c b even (omega arith) in
    let (r1, e', g) =
      checksum_folds (with_field a c b) start (AreBytes-with_field a c b ha hb (omega arith))
        (omega (arith, e1)) in
    rw (e, e')
      (verified (start + sum16 a + sum16 b) r r1 (Folded-eq f (omega (arith, e0)))
        (Folded-eq g (omega (arith, e1))))
  where
    verified : (s r r1 : ℕ) → Folded s r → Folded (s + (65535 - r)) r1 → 65535 - r1 ≡ 0
    verified s r r1 f g = elim (dec_lt 0 r1) [
      | yes p ↦ omega (arith, f.short, f.same, g.short, g.same)
      | no p ↦ omega (arith, f.below, f.short, g.nothing (omega arith))
    ]

-- Bytes whose checksum comes out at 0 add up to 0 in ones' complement, where 0 is 65535.
pub checksum-word_sum :
    (s : List ℕ)
    → AreBytes s
    → sum16 s < 2 ^ 32
    → checksum s 0 ≡ 0
    → (word_sum s % 65535 ≡ 0) × (0 < word_sum s)
checksum-word_sum s b h z =
    let (r, e, f) = checksum_folds s 0 b (omega (arith, h)) in
    let (k, w) = word_sum-sum16 s in
    let whole : sum16 s % 65535 ≡ 0 = omega (arith, e, z, f.short, f.same) in
    (omega (arith, w, whole), omega (arith, e, z, f.short, f.below, word_sum-bound s))
