-- ===== src/Alloc/FreeList.antt =====
-- The walks over the free list in src/system/alloc.c.
use teatime_os.Base.{
  ℕ, ◌+◌, ◌-◌, Option, none, some, List, [], ◌∷◌, ◌==◌, ltb, leb, if◌then◌else◌, add32,
}

-- A free block: the address of its `memblk_t`, and its size word.
pub record Blk : Type 0 where
  pub addr : ℕ
  pub size : ℕ

abbrev pub blk : ℕ → ℕ → Blk
blk a n = record { addr = a; size = n }

-- The block that is handed out, and the list that it leaves behind in place of `b ∷ rest`.
unfoldable pub take_front : ℕ → Blk → List Blk → Blk × List Blk
take_front size b rest =
    if ltb b.size (add32 size 16)
    then (b, rest)
    else (blk b.addr size, blk (b.addr + size) (b.size - size) ∷ rest)

unfoldable pub keep_front : Blk → Option (Blk × List Blk) → Option (Blk × List Blk)
keep_front b none = none
keep_front b (some (r, rest)) = some (r, b ∷ rest)

unfoldable pub first_fit_loop : ℕ → List Blk → Option (Blk × List Blk)
unfolding take_front keep_front
first_fit_loop size [] = none
first_fit_loop size (b ∷ rest) =
    if leb size b.size
    then some (take_front size b rest)
    else keep_front b (first_fit_loop size rest)

-- A candidate of the scan: the blocks in front of it, last one first, the block, those behind it.
pub record Place : Type 0 where
  pub before : List Blk
  pub here : Blk
  pub after : List Blk

unfoldable pub last_fit_scan : ℕ → Option Place → List Blk → List Blk → Option Place
last_fit_scan size poten seen [] = poten
last_fit_scan size poten seen (b ∷ rest) =
    last_fit_scan size
      (if leb size b.size then some (record { before = seen; here = b; after = rest }) else poten)
      (b ∷ seen) rest

-- `rest` behind the blocks of `seen`, whose first is the last one passed.
unfoldable pub relink : List Blk → List Blk → List Blk
relink [] rest = rest
relink (b ∷ seen) rest = relink seen (b ∷ rest)

-- The front part stays in the list, and the back part is handed out.
unfoldable pub take_back : ℕ → Place → Blk × List Blk
unfolding relink
take_back size p = if ltb p.here.size (add32 size 16) then (p.here, relink p.before p.after) else (
  blk (p.here.addr + (p.here.size - size)) size,
  relink p.before (blk p.here.addr (p.here.size - size) ∷ p.after),
)

unfoldable pub last_fit_loop : ℕ → List Blk → Option (Blk × List Blk)
unfolding last_fit_scan take_back
last_fit_loop size l = elim (last_fit_scan size none [] l) [
  | none ↦ none
  | some p ↦ some (take_back size p)
]

-- `blk` joined with the block behind it, if they touch.
unfoldable pub join_next : Blk → List Blk → List Blk
join_next b [] = b ∷ []
join_next b (c ∷ rest) =
    if b.addr + b.size == c.addr then blk b.addr (b.size + c.size) ∷ rest else b ∷ c ∷ rest

-- The block in front joined with the head of the list, if they touch.
unfoldable pub join_prev : Blk → List Blk → List Blk
join_prev p [] = p ∷ []
join_prev p (b ∷ rest) =
    if p.addr + p.size == b.addr then blk p.addr (p.size + b.size) ∷ rest else p ∷ b ∷ rest

unfoldable pub insert_after : Blk → Blk → List Blk → List Blk
unfolding join_next join_prev
insert_after p b [] = join_prev p (join_next b [])
insert_after p b (c ∷ rest) =
    if ltb c.addr b.addr then p ∷ insert_after c b rest else join_prev p (join_next b (c ∷ rest))

unfoldable pub insert_free : Blk → List Blk → List Blk
unfolding insert_after
insert_free b [] = join_next b []
insert_free b (c ∷ rest) =
    if ltb c.addr b.addr then insert_after c b rest else join_next b (c ∷ rest)

-- The loop of `heap_available`.
unfoldable pub total : ℕ → List Blk → ℕ
total acc [] = acc
total acc (b ∷ rest) = total (add32 acc b.size) rest
