-- ===== src/Runtime/Text/Find.antt =====
-- strchr and strstr on texts.
use teatime_os.Base.{
  ℕ, zero, suc, ◌+◌, ◌≤◌, ◌<◌, ◌≡◌, ◌≢◌, refl, sym, ap, ◌∙◌, subst, inl, inr, List, [], ◌∷◌, arith,
  ◌==◌, length, false, Bool-cases, ==→eq, ne→==,
}
use teatime_os.Runtime.Memory.{Memory, memcmp}
use teatime_os.Runtime.Memory.Laws.{Same, memcmp_zero}
use teatime_os.Runtime.Text.{IsText, Search, strstr_loop, strstr}
use teatime_os.Runtime.Text.Copy.{strlen_lem}

-- The first place in the `len` bytes from `hay` on, or at their end, where the needle stands.
abbrev pub Located : Memory → ℕ → ℕ → ℕ → ℕ → Search → Type 0
Located m hay len needle n Search.running = ⊥
Located m hay len needle n Search.missing = (j : ℕ) → j ≤ len → ¬ Same (hay + j) needle n m
Located m hay len needle n (Search.found p) =
    (i : ℕ) × (p ≡ hay + i)
    × (i ≤ len)
    × Same p needle n m
    × ((j : ℕ) → j < i → ¬ Same (hay + j) needle n m)

-- A text that does not begin with the needle has it where its tail has.
Located-cons :
    (m : Memory) (hay len needle n : ℕ) (o : Search)
    → ¬ Same hay needle n m
    → Located m (hay + 1) len needle n o
    → Located m hay (suc len) needle n o
Located-cons m hay len needle n Search.running differs l = l
Located-cons m hay len needle n Search.missing differs l = skips
  where
    skips : (j : ℕ) → j ≤ suc len → ¬ Same (hay + j) needle n m
    skips zero h s = differs (λ k g. ap m (omega arith) ∙ s k g)
    skips (suc j) h s = l j (omega arith) (λ k g. ap m (omega arith) ∙ s k g)
Located-cons m hay len needle n (Search.found p) differs (i, e, le, same, before) =
    (suc i, omega (arith, e), omega arith, same, skips)
  where
    skips : (j : ℕ) → j < suc i → ¬ Same (hay + j) needle n m
    skips zero h s = differs (λ k g. ap m (omega arith) ∙ s k g)
    skips (suc j) h s = before j (omega arith) (λ k g. ap m (omega arith) ∙ s k g)

ends_apart :
    (m : Memory) (hay needle : ℕ) (s : List ℕ)
    → m hay ≡ 0
    → IsText m needle s
    → length s ≢ 0
    → ¬ Same hay needle (length s) m
ends_apart m hay needle [] e t h same = h refl
ends_apart m hay needle (c ∷ s) e t h same =
    t.1 (sym (sym e ∙ ap m (omega arith) ∙ same 0 (omega arith) ∙ ap m (omega arith) ∙ t.0))

strstr_loop-Located :
    (rounds hay needle : ℕ) (h s : List ℕ) (m : Memory)
    → IsText m hay h
    → IsText m needle s
    → length h < rounds
    → Located m hay (length h) needle (length s) (strstr_loop rounds hay needle (length s) m)
unfolding strstr_loop
strstr_loop-Located zero hay needle h s m u v lt = absurd (omega arith)
strstr_loop-Located (suc rounds) hay needle [] s m u v lt = elim (Bool-cases (length s == 0)) [
  | inl e ↦
      rw (u, e)
        (
          0,
          omega arith,
          omega arith,
          λ k g. absurd (omega (arith, ==→eq (length s) 0 e)),
          λ j g. absurd (omega arith),
        )
  | inr e ↦
      rw (u, e)
        (λ j g same.
          ends_apart m hay needle s u v (ground (arith, e)) (λ k i. ap m (omega arith) ∙ same k i))
]
strstr_loop-Located (suc rounds) hay needle (c ∷ h) s m u v lt =
    let nonzero : (c == 0) ≡ false = ne→== c 0 u.1 in
    let iff = memcmp_zero hay needle (length s) m in
    elim (Bool-cases (memcmp hay needle (length s) m == 0)) [
      | inl e ↦
          rw (u.0, nonzero, e)
            (
              0,
              omega arith,
              omega arith,
              iff.0 (==→eq (memcmp hay needle (length s) m) 0 e),
              λ j g. absurd (omega arith),
            )
      | inr e ↦
          rw (u.0, nonzero, e)
            (Located-cons m hay (length h) needle (length s)
              (strstr_loop rounds (hay + 1) needle (length s) m)
              (λ same. ground (arith, e, iff.1 same))
              (strstr_loop-Located rounds (hay + 1) needle h s m u.2 v (omega arith)))
    ]

-- On two texts `strstr` returns: a pointer to the first place where the second stands in the
-- first, which is the first's start for an empty second, or NULL if there is none.
pub strstr-Located :
    (rounds hay needle : ℕ) (h s : List ℕ) (m : Memory)
    → IsText m hay h
    → IsText m needle s
    → length h < rounds
    → length s < rounds
    → Located m hay (length h) needle (length s) (strstr rounds hay needle m)
unfolding strstr
strstr-Located rounds hay needle h s m u v lt lt' =
    let e : strstr rounds hay needle m ≡ strstr_loop rounds hay needle (length s) m =
      rw (strlen_lem rounds needle s m v lt', strstr) refl in
    subst (Located m hay (length h) needle (length s)) (sym e)
      (strstr_loop-Located rounds hay needle h s m u v lt)
