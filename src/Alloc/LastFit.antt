-- ===== src/Alloc/LastFit.antt =====
-- `last_fit` of src/system/alloc.c: its forward scan takes from the last block that is large enough.
use teatime_os.Base.{
  ℕ, ◌+◌, ◌-◌, ◌%◌, ◌^◌, ◌≤◌, ◌<◌, ◌≡◌, refl, inl, inr, List, [], ◌∷◌, Option, none, some, arith,
  leb, ltb, Bool-cases, if◌then◌else◌, add32,
}
use teatime_os.Alloc.FreeList.{
  Blk, blk, Place, relink, take_back, last_fit_scan, last_fit_loop, keep_front, insert_free,
}
use teatime_os.Alloc.Shape.{
  IsFree, IsFree-mono, IsFree-Apart, Taken, Outcome, whole-Taken, Taken-cons,
}

-- The back part of `b`, and the list that stays in place of `b ∷ rest`.
take_end : ℕ → Blk → List Blk → Blk × List Blk
take_end size b rest =
    if ltb b.size (add32 size 16)
    then (b, rest)
    else (blk (b.addr + (b.size - size)) size, blk b.addr (b.size - size) ∷ rest)

-- Last fit by recursion from the back: the reference for the scan.
pub last_fit_from_back : ℕ → List Blk → Option (Blk × List Blk)
unfolding take_end keep_front
last_fit_from_back size [] = none
last_fit_from_back size (b ∷ rest) = elim (last_fit_from_back size rest) [
  | some t ↦ keep_front b (some t)
  | none ↦ if leb size b.size then some (take_end size b rest) else none
]

abbrev take_place : ℕ → Option Place → Option (Blk × List Blk)
take_place size none = none
take_place size (some p) = some (take_back size p)

abbrev relinked :
    List Blk → Option (Blk × List Blk) → Option (Blk × List Blk) → Option (Blk × List Blk)
relinked seen other none = other
relinked seen other (some (r, rest)) = some (r, relink seen rest)

last_fit_scan_lem :
    (size : ℕ) (poten : Option Place) (seen l : List Blk)
    → take_place size (last_fit_scan size poten seen l)
      ≡ relinked seen (take_place size poten) (last_fit_from_back size l)
unfolding last_fit_scan last_fit_from_back take_back
last_fit_scan_lem size poten seen [] = refl
last_fit_scan_lem size poten seen (b ∷ l) = ground (
  arith,
  last_fit_scan_lem size
      (if leb size b.size then some (record { before = seen; here = b; after = l }) else poten)
      (b ∷ seen) l,
)

-- The forward scan of `last_fit`, with its two remembered pointers, takes the same block and leaves
-- the same list as the recursion that tries the rest of the list first.
pub last_fit_loop_eq : (size : ℕ) (l : List Blk) → last_fit_loop size l ≡ last_fit_from_back size l
unfolding last_fit_loop relink
last_fit_loop_eq size l = ground (arith, last_fit_scan_lem size none [] l)

module _ {lo hi size : ℕ} {b : Blk} (rest : List Blk) (size_ok : (16 ≤ size) × (size % 8 ≡ 0))
    (small : hi + 16 < 2 ^ 32) (fits : size ≤ b.size) (f : IsFree lo hi (b ∷ rest)) where
  insert_free-back :
      (l : List Blk)
      → size + 16 ≤ b.size
      → IsFree (b.addr + b.size + 1) hi l
      → insert_free (blk (b.addr + (b.size - size)) size) (blk b.addr (b.size - size) ∷ l) ≡ b ∷ l
  unfolding insert_free
  insert_free-back [] h g = ground arith
  insert_free-back (c ∷ l) h g = ground arith

  back-Taken :
      size + 16 ≤ b.size
      → Taken lo hi size
          (b ∷ rest)
          (blk (b.addr + (b.size - size)) size)
          (blk b.addr (b.size - size) ∷ rest)
  back-Taken h = record {
    block = ground arith;
    enough = omega arith;
    tight = omega arith;
    left = (ground arith, IsFree-mono (b.addr + b.size + 1) hi rest (omega arith) f.1);
    apart = (
      inr (omega arith),
      IsFree-Apart (b.addr + b.size + 1) hi (blk (b.addr + (b.size - size)) size) rest (omega arith)
          f.1,
    );
    accounted = omega arith;
    restores = insert_free-back rest h f.1;
  }

  take_end-Taken : Taken lo hi size (b ∷ rest) (take_end size b rest).0 (take_end size b rest).1
  unfolding take_end
  take_end-Taken = elim (Bool-cases (ltb b.size (add32 size 16))) [
    | inl e ↦ rw e (whole-Taken rest size_ok small fits f (ground arith))
    | inr e ↦ rw e (back-Taken (ground arith))
  ]

module _ (size hi : ℕ) (size_ok : (16 ≤ size) × (size % 8 ≡ 0)) (small : hi + 16 < 2 ^ 32) where
  last_fit_from_back-Outcome :
      (lo : ℕ) (l : List Blk) → IsFree lo hi l → Outcome lo hi size l (last_fit_from_back size l)
  unfolding last_fit_from_back
  last_fit_from_back-Outcome lo [] f = tt
  last_fit_from_back-Outcome lo (b ∷ l) f =
      cases (last_fit_from_back size l) (last_fit_from_back-Outcome (b.addr + b.size + 1) l f.1)
    where
      cases :
          (o : Option (Blk × List Blk))
          → Outcome (b.addr + b.size + 1) hi size l o
          → Outcome lo hi size (b ∷ l) (elim o [
            | some t ↦ keep_front b (some t)
            | none ↦ if leb size b.size then some (take_end size b l) else none
          ])
      cases (some (r, rest)) t = Taken-cons f.0 t
      cases none t = elim (Bool-cases (leb size b.size)) [
        | inl fits ↦ rw fits (take_end-Taken l size_ok small (ground arith) f)
        | inr no_fit ↦ rw no_fit (ground arith, t)
      ]

  pub last_fit_loop-Outcome :
      (lo : ℕ) (l : List Blk) → IsFree lo hi l → Outcome lo hi size l (last_fit_loop size l)
  last_fit_loop-Outcome lo l f = rw (last_fit_loop_eq size l) (last_fit_from_back-Outcome lo l f)
