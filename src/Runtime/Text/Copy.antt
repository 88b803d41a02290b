-- ===== src/Runtime/Text/Copy.antt =====
-- strlen, strcpy and strcat on texts.
use teatime_os.Base.{
  ℕ, zero, suc, ◌+◌, ◌-◌, ◌≤◌, ◌<◌, ◌≡◌, refl, ap, ◌∙◌, subst, ◌⊎◌, List, [], ◌∷◌, ◌++◌, some,
  arith, length,
}
use teatime_os.Runtime.Memory.{Memory, memcpy}
use teatime_os.Runtime.Memory.Laws.{Copied, memmove-Copied}
use teatime_os.Runtime.Text.{IsText, strlen_loop, strlen, strcpy, strcat}

pub IsText-at : (m : Memory) (s : List ℕ) {p q : ℕ} → p ≡ q → IsText m p s → IsText m q s
IsText-at m s e t = subst (λ x. IsText m x s) e t

strlen_loop_lem :
    (rounds n p : ℕ) (s : List ℕ) (m : Memory)
    → IsText m (p + n) s
    → length s < rounds
    → strlen_loop rounds n p m ≡ some (n + length s)
unfolding strlen_loop
strlen_loop_lem zero n p s m t h = absurd (omega arith)
strlen_loop_lem (suc rounds) n p [] m t h = ground (arith, t)
strlen_loop_lem (suc rounds) n p (c ∷ s) m t h =
    let rest =
      strlen_loop_lem rounds (n + 1) p s m (IsText-at m s (omega arith) t.2) (omega arith) in
    ground (arith, t.0, t.1, rest)

pub strlen_lem :
    (rounds p : ℕ) (s : List ℕ) (m : Memory)
    → IsText m p s
    → length s < rounds
    → strlen rounds p m ≡ some (length s)
unfolding strlen
strlen_lem rounds p s m t h =
    strlen_loop_lem rounds 0 p s m (IsText-at m s (omega arith) t) h ∙ ap some (omega arith)

pub IsText-moved :
    (m m' : Memory) (p q : ℕ) (s : List ℕ)
    → ((k : ℕ) → k ≤ length s → m' (q + k) ≡ m (p + k))
    → IsText m p s
    → IsText m' q s
IsText-moved m m' p q [] h t = ap m' (omega arith) ∙ h 0 (omega arith) ∙ ap m (omega arith) ∙ t
IsText-moved m m' p q (c ∷ s) h t = (
  ap m' (omega arith) ∙ h 0 (omega arith) ∙ ap m (omega arith) ∙ t.0,
  t.1,
  IsText-moved m m' (p + 1) (q + 1) s
      (λ k le. ap m' (omega arith) ∙ h (k + 1) (omega arith) ∙ ap m (omega arith)) t.2,
)

pub IsText-append :
    (m m' : Memory) (p : ℕ) (s t : List ℕ)
    → ((k : ℕ) → k < length s → m' (p + k) ≡ m (p + k))
    → IsText m p s
    → IsText m' (p + length s) t
    → IsText m' p (s ++ t)
IsText-append m m' p [] t h u v = IsText-at m' t (omega arith) v
IsText-append m m' p (c ∷ s) t h u v = (
  ap m' (omega arith) ∙ h 0 (omega arith) ∙ ap m (omega arith) ∙ u.0,
  u.1,
  IsText-append m m' (p + 1) s t
      (λ k le. ap m' (omega arith) ∙ h (k + 1) (omega arith) ∙ ap m (omega arith)) u.2
      (IsText-at m' t (omega arith) v),
)

-- `strcat` of two texts that do not overlap, with a round for each byte and one for each NUL, puts
-- the second behind the first, and changes no byte outside of the place that it takes there.
pub strcat-IsText :
    (rounds dst src : ℕ) (s t : List ℕ) (m : Memory)
    → IsText m dst s
    → IsText m src t
    → length s < rounds
    → length t < rounds
    → (src + length t < dst) ⊎ (dst + length s + length t < src)
    → (m' : Memory) × (strcat rounds dst src m ≡ some m')
      × IsText m' dst (s ++ t)
      × ((k : ℕ) → (k < dst + length s) ⊎ (dst + length s + length t < k) → m' k ≡ m k)
unfolding strcat strcpy
strcat-IsText rounds dst src s t m u v hs ht apart = (
  m',
  rw (strlen_lem rounds dst s m u hs, strlen_lem rounds src t m v ht) refl,
  IsText-append m m' dst s t (λ k h. ground (arith, copied (dst + k))) u
      (IsText-moved m m' src (dst + length s) t (λ k h. moved k h) v),
  λ k h. ground (arith, copied k),
)
  where
    m' : Memory
    m' = memcpy (dst + length s) src (length t + 1) m

    copied : Copied (dst + length s) src (length t + 1) m m'
    copied = (memmove-Copied (dst + length s) src (length t + 1) m).1 (ground arith)

    moved : (k : ℕ) → k ≤ length t → m' (dst + length s + k) ≡ m (src + k)
    moved k h =
        let e : dst + length s + k - (dst + length s) ≡ k = omega arith in
        ground (arith, copied (dst + length s + k), ap (λ j. m (src + j)) e)
