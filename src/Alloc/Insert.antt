-- ===== src/Alloc/Insert.antt =====
-- `insert_free` of src/system/alloc.c: a block that is given back keeps the free list well-formed.
use teatime_os.Base.{
  ℕ, ◌+◌, ◌≤◌, ◌<◌, ◌≡◌, refl, inl, inr, List, [], ◌∷◌, arith, ltb, ◌==◌, Bool-cases,
}
use teatime_os.Alloc.FreeList.{Blk, join_next, join_prev, insert_after, insert_free}
use teatime_os.Alloc.Shape.{IsBlock, IsFree, IsFree-mono, Disjoint, Apart, sizes}

join_next-IsFree :
    (lo hi : ℕ) (b : Blk) (l : List Blk)
    → IsBlock lo hi b
    → IsFree (b.addr + b.size) hi l
    → IsFree lo hi (join_next b l)
unfolding join_next
join_next-IsFree lo hi b [] h f = (h, tt)
join_next-IsFree lo hi b (c ∷ l) h f = elim (Bool-cases (b.addr + b.size == c.addr)) [
  | inl e ↦ rw e (ground arith, IsFree-mono (c.addr + c.size + 1) hi l (ground arith) f.1)
  | inr e ↦ rw e (h, (ground arith, f.1))
]

join_prev-IsFree :
    (lo hi : ℕ) (p : Blk) (l : List Blk)
    → IsBlock lo hi p
    → IsFree (p.addr + p.size) hi l
    → IsFree lo hi (join_prev p l)
unfolding join_prev
join_prev-IsFree lo hi p [] h f = (h, tt)
join_prev-IsFree lo hi p (b ∷ l) h f = elim (Bool-cases (p.addr + p.size == b.addr)) [
  | inl e ↦ rw e (ground arith, IsFree-mono (b.addr + b.size + 1) hi l (ground arith) f.1)
  | inr e ↦ rw e (h, (ground arith, f.1))
]

-- The rest of the list lies behind a block that stops the walk.
behind :
    (lo hi : ℕ) (b c : Blk) (l : List Blk)
    → b.addr ≤ c.addr
    → 0 < c.size
    → Disjoint b c
    → IsFree lo hi (c ∷ l)
    → IsFree (b.addr + b.size) hi (c ∷ l)
behind lo hi b c l h pos apart f = (ground arith, f.1)

past :
    (hi : ℕ) (b c : Blk)
    → c.addr < b.addr
    → 0 < b.size
    → Disjoint b c
    → IsBlock 0 hi b
    → IsBlock (c.addr + c.size) hi b
past hi b c h pos apart f = ground arith

insert_after-IsFree :
    (lo hi : ℕ) (p b : Blk) (l : List Blk)
    → IsBlock lo hi p
    → IsBlock (p.addr + p.size) hi b
    → IsFree (p.addr + p.size + 1) hi l
    → Apart b l
    → IsFree lo hi (insert_after p b l)
unfolding insert_after
insert_after-IsFree lo hi p b [] hp hb f a =
    join_prev-IsFree lo hi p (join_next b []) hp (join_next-IsFree (p.addr + p.size) hi b [] hb tt)
insert_after-IsFree lo hi p b (c ∷ l) hp hb f a = elim (Bool-cases (ltb c.addr b.addr)) [
  | inl e ↦ rw e (
    hp,
    insert_after-IsFree (p.addr + p.size + 1) hi c b l f.0
        (past hi b c (ground arith) (ground arith) a.0 (ground arith)) f.1 a.1,
  )
  | inr e ↦ rw e (
      join_prev-IsFree lo hi p (join_next b (c ∷ l)) hp (
        join_next-IsFree (p.addr + p.size) hi b (c ∷ l) hb
          (behind (p.addr + p.size + 1) hi b c l (ground arith) (ground arith) a.0 f)))
]

pub insert_free-IsFree :
    (lo hi : ℕ) (b : Blk) (l : List Blk)
    → IsBlock lo hi b
    → IsFree lo hi l
    → Apart b l
    → IsFree lo hi (insert_free b l)
unfolding insert_free
insert_free-IsFree lo hi b [] hb f a = join_next-IsFree lo hi b [] hb tt
insert_free-IsFree lo hi b (c ∷ l) hb f a = elim (Bool-cases (ltb c.addr b.addr)) [
  | inl e ↦ rw e (
      insert_after-IsFree lo hi c b l f.0
        (past hi b c (ground arith) (ground arith) a.0 (ground arith)) f.1 a.1)
  | inr e ↦
      rw e (
        join_next-IsFree lo hi b (c ∷ l) hb
          (behind lo hi b c l (ground arith) (ground arith) a.0 f))
]

-- The bytes on the list, and what another block is disjoint from.
sizes-join_next : (b : Blk) (l : List Blk) → sizes (join_next b l) ≡ b.size + sizes l
unfolding join_next
sizes-join_next b [] = refl
sizes-join_next b (c ∷ l) = ground arith

sizes-join_prev : (b : Blk) (l : List Blk) → sizes (join_prev b l) ≡ b.size + sizes l
unfolding join_prev
sizes-join_prev b [] = refl
sizes-join_prev b (c ∷ l) = ground arith

sizes-insert_after :
    (p b : Blk) (l : List Blk) → sizes (insert_after p b l) ≡ p.size + (b.size + sizes l)
unfolding insert_after
sizes-insert_after p b [] = omega (arith, sizes-join_prev p (join_next b []), sizes-join_next b [])
sizes-insert_after p b (c ∷ l) = ground (
  arith,
  sizes-insert_after c b l,
  sizes-join_prev p (join_next b (c ∷ l)),
  sizes-join_next b (c ∷ l),
)

pub sizes-insert_free : (b : Blk) (l : List Blk) → sizes (insert_free b l) ≡ b.size + sizes l
unfolding insert_free
sizes-insert_free b [] = sizes-join_next b []
sizes-insert_free b (c ∷ l) = ground (arith, sizes-insert_after c b l, sizes-join_next b (c ∷ l))
