-- ===== src/Alloc/FirstFit.antt =====
-- `first_fit` of src/system/alloc.c: what it takes, and when it takes nothing.
use teatime_os.Base.{
  ℕ, ◌+◌, ◌%◌, ◌^◌, ◌≤◌, ◌<◌, ◌≡◌, inl, inr, List, [], ◌∷◌, arith, leb, Bool-cases,
}
use teatime_os.Alloc.FreeList.{Blk, first_fit_loop}
use teatime_os.Alloc.Shape.{IsFree, Outcome, keep_front-Outcome, take_front-Taken}

module _ (size hi : ℕ) (size_ok : (16 ≤ size) × (size % 8 ≡ 0)) (small : hi + 16 < 2 ^ 32) where
  pub first_fit_loop-Outcome :
      (lo : ℕ) (l : List Blk) → IsFree lo hi l → Outcome lo hi size l (first_fit_loop size l)
  unfolding first_fit_loop
  first_fit_loop-Outcome lo [] f = tt
  first_fit_loop-Outcome lo (b ∷ l) f = elim (Bool-cases (leb size b.size)) [
    | inl fits ↦ rw fits (take_front-Taken l size_ok small (ground arith) f)
    | inr no_fit ↦ rw no_fit (
        keep_front-Outcome lo hi size b l (first_fit_loop size l) f.0 (ground arith)
          (first_fit_loop-Outcome (b.addr + b.size + 1) l f.1))
  ]
