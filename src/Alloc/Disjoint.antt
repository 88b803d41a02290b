-- ===== src/Alloc/Disjoint.antt =====
-- Which blocks are disjoint from a list that `insert_free` of src/system/alloc.c has changed.
use teatime_os.Base.{◌<◌, inl, inr, List, [], ◌∷◌, arith, ltb, Bool-cases}
use teatime_os.Alloc.FreeList.{Blk, join_next, join_prev, insert_after, insert_free}
use teatime_os.Alloc.Shape.{Disjoint, Apart}

module _ (x : Blk) (pos : 0 < x.size) where
  Apart-join_next : (b : Blk) (l : List Blk) → Disjoint x b → Apart x l → Apart x (join_next b l)
  unfolding join_next
  Apart-join_next b [] d a = (d, tt)
  Apart-join_next b (c ∷ l) d a = ground arith

  Apart-join_prev : (b : Blk) (l : List Blk) → Disjoint x b → Apart x l → Apart x (join_prev b l)
  unfolding join_prev
  Apart-join_prev b [] d a = (d, tt)
  Apart-join_prev b (c ∷ l) d a = ground arith

  Apart-insert_after :
      (p b : Blk) (l : List Blk)
      → Disjoint x p
      → Disjoint x b
      → Apart x l
      → Apart x (insert_after p b l)
  unfolding insert_after
  Apart-insert_after p b [] dp d a =
      Apart-join_prev p (join_next b []) dp (Apart-join_next b [] d tt)
  Apart-insert_after p b (c ∷ l) dp d a = elim (Bool-cases (ltb c.addr b.addr)) [
    | inl e ↦ rw e (dp, Apart-insert_after c b l a.0 d a.1)
    | inr e ↦ rw e (Apart-join_prev p (join_next b (c ∷ l)) dp (Apart-join_next b (c ∷ l) d a))
  ]

  pub Apart-insert_free :
      (b : Blk) (l : List Blk) → Disjoint x b → Apart x l → Apart x (insert_free b l)
  unfolding insert_free
  Apart-insert_free b [] d a = Apart-join_next b [] d tt
  Apart-insert_free b (c ∷ l) d a = elim (Bool-cases (ltb c.addr b.addr)) [
    | inl e ↦ rw e (Apart-insert_after c b l a.0 d a.1)
    | inr e ↦ rw e (Apart-join_next b (c ∷ l) d a)
  ]

-- The other way round: a block disjoint from the new list is disjoint from both parts.
module _ (x : Blk) where
  join_next-Apart : (b : Blk) (l : List Blk) → Apart x (join_next b l) → Disjoint x b × Apart x l
  unfolding join_next
  join_next-Apart b [] a = a
  join_next-Apart b (c ∷ l) a = ground arith

  join_prev-Apart : (b : Blk) (l : List Blk) → Apart x (join_prev b l) → Disjoint x b × Apart x l
  unfolding join_prev
  join_prev-Apart b [] a = a
  join_prev-Apart b (c ∷ l) a = ground arith

  abbrev Three : Blk → Blk → List Blk → Type 0
  Three p b l = Disjoint x p × Disjoint x b × Apart x l

  joined-Three : (p b : Blk) (l : List Blk) → Apart x (join_prev p (join_next b l)) → Three p b l
  joined-Three p b l a =
      let front = join_prev-Apart p (join_next b l) a in
      let back = join_next-Apart b l front.1 in (front.0, back.0, back.1)

  insert_after-Apart : (p b : Blk) (l : List Blk) → Apart x (insert_after p b l) → Three p b l
  unfolding insert_after
  insert_after-Apart p b [] a = joined-Three p b [] a
  insert_after-Apart p b (c ∷ l) a = elim (Bool-cases (ltb c.addr b.addr)) [
    | inl e ↦
        let a' : Disjoint x p × Apart x (insert_after c b l) = rw (e, insert_after) at a in
        let later = insert_after-Apart c b l a'.1 in (a'.0, later.1, (later.0, later.2))
    | inr e ↦ joined-Three p b (c ∷ l) (rw (e, insert_after) at a)
  ]

  pub insert_free-Apart :
      (b : Blk) (l : List Blk) → Apart x (insert_free b l) → Disjoint x b × Apart x l
  unfolding insert_free
  insert_free-Apart b [] a = join_next-Apart b [] a
  insert_free-Apart b (c ∷ l) a = elim (Bool-cases (ltb c.addr b.addr)) [
    | inl e ↦
        let later = insert_after-Apart c b l (rw (e, insert_free) at a) in
        (later.1, (later.0, later.2))
    | inr e ↦ join_next-Apart b (c ∷ l) (rw (e, insert_free) at a)
  ]
