-- ===== src/Alloc/Shape.antt =====
-- What a well-formed free list is, and what taking a block out of it leaves.
use teatime_os.Base.{
  ℕ, ◌+◌, ◌-◌, ◌%◌, ◌^◌, ◌≤◌, ◌<◌, ◌≡◌, refl, ◌⊎◌, inl, inr, List, [], ◌∷◌, All, Option, none, some,
  arith, ltb, Bool-cases, add32,
}
use teatime_os.Alloc.FreeList.{
  Blk, blk, take_front, keep_front, join_next, join_prev, insert_after, insert_free,
}

-- A whole number of 8-byte units, at least `MIN_ALLOC` bytes, between `lo` and `hi`.
pub record IsBlock (lo hi : ℕ) (b : Blk) : Type 0 where
  pub above : lo ≤ b.addr
  pub within : b.addr + b.size ≤ hi
  pub large : 16 ≤ b.size
  pub rounded : b.size % 8 ≡ 0
  pub aligned : b.addr % 8 ≡ 0

-- Free blocks in the order of their addresses, no two of them touching.
abbrev pub IsFree : ℕ → ℕ → List Blk → Type 0
IsFree lo hi [] = Unit
IsFree lo hi (b ∷ rest) = IsBlock lo hi b × IsFree (b.addr + b.size + 1) hi rest

abbrev pub Disjoint : Blk → Blk → Type 0
Disjoint b c = (b.addr + b.size ≤ c.addr) ⊎ (c.addr + c.size ≤ b.addr)

abbrev pub Apart : Blk → List Blk → Type 0
Apart b = All (Disjoint b)

abbrev pub sizes : List Blk → ℕ
sizes [] = 0
sizes (b ∷ rest) = b.size + sizes rest

pub IsFree-mono : {lo' : ℕ} (lo hi : ℕ) (l : List Blk) → lo' ≤ lo → IsFree lo hi l → IsFree lo' hi l
IsFree-mono lo hi [] h f = tt
IsFree-mono lo hi (b ∷ rest) h f = (ground arith, f.1)

pub IsFree-Apart :
    (lo hi : ℕ) (b : Blk) (l : List Blk) → b.addr + b.size ≤ lo → IsFree lo hi l → Apart b l
IsFree-Apart lo hi b [] h f = tt
IsFree-Apart lo hi b (c ∷ rest) h f =
    (inl (omega arith), IsFree-Apart (c.addr + c.size + 1) hi b rest (omega arith) f.1)

-- The outcome of taking the block `r` for a request of `size` bytes out of the list `l`.
pub record Taken (lo hi size : ℕ) (l : List Blk) (r : Blk) (rest : List Blk) : Type 0 where
  pub block : IsBlock lo hi r
  pub enough : size ≤ r.size
  pub tight : r.size < size + 16
  pub left : IsFree lo hi rest
  pub apart : Apart r rest
  pub accounted : sizes rest + r.size ≡ sizes l
  pub restores : insert_free r rest ≡ l

pub insert_after-cons :
    (p b : Blk) (l : List Blk) → p.addr + p.size < b.addr → insert_after p b l ≡ p ∷ insert_free b l
unfolding insert_free join_next join_prev
insert_after-cons p b [] h = ground arith
insert_after-cons p b (c ∷ rest) h = ground arith

pub insert_free-front :
    (lo hi : ℕ) (b : Blk) (l : List Blk)
    → b.addr + b.size < lo
    → 0 < b.size
    → IsFree lo hi l
    → insert_free b l ≡ b ∷ l
unfolding insert_free join_next
insert_free-front lo hi b [] h p f = refl
insert_free-front lo hi b (c ∷ rest) h p f = ground arith

-- What is taken further down the list is taken from the whole list.
pub Taken-cons :
    {lo hi size : ℕ} {l rest : List Blk} {b r : Blk}
    → IsBlock lo hi b
    → Taken (b.addr + b.size + 1) hi size l r rest
    → Taken lo hi size (b ∷ l) r (b ∷ rest)
unfolding insert_free
Taken-cons {rest} {b} {r} h t = record {
  block = ground arith;
  enough = t.enough;
  tight = t.tight;
  left = (h, t.left);
  apart = (inr (ground arith), t.apart);
  accounted = omega (arith, t.accounted);
  restores = ground (arith, insert_after-cons b r rest, t.restores);
}

module _ {lo hi size : ℕ} {b : Blk} (rest : List Blk) (size_ok : (16 ≤ size) × (size % 8 ≡ 0))
    (small : hi + 16 < 2 ^ 32) (fits : size ≤ b.size) (f : IsFree lo hi (b ∷ rest)) where
  pub whole-Taken : b.size < size + 16 → Taken lo hi size (b ∷ rest) b rest
  whole-Taken h = record {
    block = f.0;
    enough = fits;
    tight = h;
    left = IsFree-mono (b.addr + b.size + 1) hi rest (omega arith) f.1;
    apart = IsFree-Apart (b.addr + b.size + 1) hi b rest (omega arith) f.1;
    accounted = omega arith;
    restores = insert_free-front (b.addr + b.size + 1) hi b rest (omega arith) (omega arith) f.1;
  }

  split-IsFree :
      size + 16 ≤ b.size → IsFree (b.addr + size) hi (blk (b.addr + size) (b.size - size) ∷ rest)
  split-IsFree h = (
    record {
      above = omega arith;
      within = omega arith;
      large = omega arith;
      rounded = omega arith;
      aligned = omega arith;
    },
    IsFree-mono (b.addr + b.size + 1) hi rest (omega arith) f.1,
  )

  front-Taken :
      size + 16 ≤ b.size
      → Taken lo hi size (b ∷ rest) (blk b.addr size) (blk (b.addr + size) (b.size - size) ∷ rest)
  unfolding insert_free join_next
  front-Taken h = record {
    block = ground arith;
    enough = omega arith;
    tight = omega arith;
    left =
        IsFree-mono {lo' = lo} (b.addr + size) hi (blk (b.addr + size) (b.size - size) ∷ rest)
          (omega arith) (split-IsFree h);
    apart =
        IsFree-Apart (b.addr + size) hi (blk b.addr size)
          (blk (b.addr + size) (b.size - size) ∷ rest) (omega arith) (split-IsFree h);
    accounted = omega arith;
    restores = ground arith;
  }

  pub take_front-Taken :
      Taken lo hi size (b ∷ rest) (take_front size b rest).0 (take_front size b rest).1
  unfolding take_front
  take_front-Taken = elim (Bool-cases (ltb b.size (add32 size 16))) [
    | inl e ↦ rw e (whole-Taken (ground arith))
    | inr e ↦ rw e (front-Taken (ground arith))
  ]

-- Both outcomes of a request: a block, or none because every free block is too small.
abbrev pub Outcome : ℕ → ℕ → ℕ → List Blk → Option (Blk × List Blk) → Type 0
Outcome lo hi size l none = All (λ (b : Blk). b.size < size) l
Outcome lo hi size l (some (r, rest)) = Taken lo hi size l r rest

pub keep_front-Outcome :
    (lo hi size : ℕ) (b : Blk) (l : List Blk) (o : Option (Blk × List Blk))
    → IsBlock lo hi b
    → b.size < size
    → Outcome (b.addr + b.size + 1) hi size l o
    → Outcome lo hi size (b ∷ l) (keep_front b o)
unfolding keep_front
keep_front-Outcome lo hi size b l none h no_fit t = (no_fit, t)
keep_front-Outcome lo hi size b l (some (r, rest)) h no_fit t = Taken-cons h t
