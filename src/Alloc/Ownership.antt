-- ===== src/Alloc/Ownership.antt =====
-- Programs that use the heap of src/system/alloc.c: which blocks they hold, call by call.
use teatime_os.Base.{
  ℕ, ◌+◌, ◌-◌, ◌%◌, ◌^◌, ◌≤◌, ◌<◌, ◌≡◌, refl, ap, sym, subst, ◌⊎◌, List, [], ◌∷◌, Option, none,
  some, All, arith, All-mono, ==-self,
}
use teatime_os.Alloc.FreeList.{Blk, blk, first_fit_loop, last_fit_loop, insert_free}
use teatime_os.Alloc.Shape.{IsBlock, IsFree, Disjoint, Apart, sizes, Taken, Outcome}
use teatime_os.Alloc.FirstFit.{first_fit_loop-Outcome}
use teatime_os.Alloc.LastFit.{last_fit_loop-Outcome}
use teatime_os.Alloc.Disjoint.{insert_free-Apart}
use teatime_os.Alloc.{Heap, block_size, write_word, hand_out, alloc, alloc_stack, free}

abbrev pub Distinct : List Blk → Type 0
Distinct [] = Unit
Distinct (b ∷ live) = Apart b live × Distinct live

-- The heap, with the blocks that are handed out: between them they cover it without overlap.
pub record IsValid (h : Heap) (live : List Blk) : Type 0 where
  pub small : h.heap_end + 16 < 2 ^ 32
  pub free_blocks : IsFree h.heap_start h.heap_end h.freelist
  pub live_blocks : All (IsBlock h.heap_start h.heap_end) live
  pub apart : All (λ (b : Blk). Apart b h.freelist) live
  pub distinct : Distinct live
  pub headers : All (λ (b : Blk). h.header b.addr ≡ b.size) live
  pub covered : h.heap_start + sizes h.freelist + sizes live ≡ h.heap_end

pub block_size_ok : (n : ℕ) → (16 ≤ block_size n) × (block_size n % 8 ≡ 0)
unfolding block_size
block_size_ok n = ground arith

-- A block taken from the free list is disjoint from all that is handed out.
live-Taken :
    {lo hi size : ℕ} (l : List Blk) (r : Blk) (rest live : List Blk)
    → Taken lo hi size l r rest
    → All (λ (b : Blk). Apart b l) live
    → All (λ (b : Blk). Disjoint b r × Apart b rest) live
live-Taken l r rest live t =
    All-mono (λ b a. insert_free-Apart b r rest (subst (Apart b) (sym t.restores) a)) live

Apart-symm : (r : Blk) (live : List Blk) → All (λ (b : Blk). Disjoint b r) live → Apart r live
Apart-symm r [] a = tt
Apart-symm r (b ∷ live) a = (ground arith, Apart-symm r live a.1)

headers-write :
    (header : ℕ → ℕ) (r : Blk) (lo hi : ℕ) (live : List Blk)
    → 0 < r.size
    → All (IsBlock lo hi) live
    → All (λ (b : Blk). Disjoint b r) live
    → All (λ (b : Blk). header b.addr ≡ b.size) live
    → All (λ (b : Blk). write_word header r.addr r.size b.addr ≡ b.size) live
headers-write header r lo hi [] pos bs d e = tt
headers-write header r lo hi (b ∷ live) pos bs d e =
    (ground arith, headers-write header r lo hi live pos bs.1 d.1 e.1)

-- Either nothing is handed out and nothing changes, or a block of the asked size is.
abbrev pub HandedOut : Heap → List Blk → ℕ → Heap × Option ℕ → Type 0
HandedOut h live need (h', none) = (h' ≡ h) × All (λ (b : Blk). b.size < need) h.freelist
HandedOut h live need (h', some p) =
    (r : Blk) × (p ≡ r.addr + 4)
    × (need ≤ r.size)
    × (r.size < need + 16)
    × IsValid h' (r ∷ live)
    × (free h' p ≡ record h { header = h'.header })

hand_out-HandedOut :
    (h : Heap) (live : List Blk) (size : ℕ) (o : Option (Blk × List Blk))
    → IsValid h live
    → Outcome h.heap_start h.heap_end (block_size size) h.freelist o
    → HandedOut h live (block_size size) (hand_out h o)
unfolding hand_out free
hand_out-HandedOut h live size none v t = (refl, t)
hand_out-HandedOut h live size (some (r, rest)) v t = (
  r,
  refl,
  t.enough,
  t.tight,
  record {
    small = v.small;
    free_blocks = t.left;
    live_blocks = (t.block, v.live_blocks);
    apart = (t.apart, All-mono (λ b d. d.1) live others);
    distinct = (Apart-symm r live (All-mono (λ b d. d.0) live others), v.distinct);
    headers = (
      ground arith,
      headers-write h.header r h.heap_start h.heap_end live (ground arith) v.live_blocks
          (All-mono (λ b d. d.0) live others) v.headers,
    );
    covered = omega (arith, t.accounted, v.covered);
  },
  ap (λ l. record h { freelist = l; header = write_word h.header r.addr r.size }) back,
)
  where
    others : All (λ (b : Blk). Disjoint b r × Apart b rest) live
    others = live-Taken h.freelist r rest live t v.apart

    back :
        insert_free (blk (r.addr + 4 - 4) (write_word h.header r.addr r.size (r.addr + 4 - 4))) rest
        ≡ h.freelist
    back = let e : r.addr + 4 - 4 ≡ r.addr = omega arith in rw (e, ==-self r.addr) t.restores

pub alloc-block_size :
    (h : Heap) (live : List Blk) (size : ℕ)
    → IsValid h live
    → HandedOut h live (block_size size) (alloc h size)
unfolding alloc
alloc-block_size h live size v =
    hand_out-HandedOut h live size (first_fit_loop (block_size size) h.freelist) v (
      first_fit_loop-Outcome (block_size size) h.heap_end (block_size_ok size) v.small h.heap_start
        h.freelist v.free_blocks)

pub alloc_stack-block_size :
    (h : Heap) (live : List Blk) (size : ℕ)
    → IsValid h live
    → HandedOut h live (block_size size) (alloc_stack h size)
unfolding alloc_stack
alloc_stack-block_size h live size v =
    hand_out-HandedOut h live size (last_fit_loop (block_size size) h.freelist) v (
      last_fit_loop-Outcome (block_size size) h.heap_end (block_size_ok size) v.small h.heap_start
        h.freelist v.free_blocks)

-- The smallest block for a request: of the multiples of 8 from 16 on, the least that holds the bytes
-- and a size word of 4 bytes.
pub record IsLeast (size need : ℕ) : Type 0 where
  pub aligned : need % 8 ≡ 0
  pub long : 16 ≤ need
  pub holds : size + 4 ≤ need
  pub least : (n : ℕ) → n % 8 ≡ 0 → 16 ≤ n → size + 4 ≤ n → need ≤ n

pub block_size-IsLeast : (size : ℕ) → size < 2 ^ 32 - 11 → IsLeast size (block_size size)
unfolding block_size
block_size-IsLeast size h = record {
  aligned = ground arith;
  long = ground arith;
  holds = ground arith;
  least = λ n a b c. ground arith;
}

-- Let `need` be the least multiple of 8 that is at least 16 and holds the request and a size word of
-- 4 bytes, for a request below 2 ^ 32 - 11 bytes. On a sound heap `alloc` either returns NULL,
-- changes nothing, and every free block is smaller than `need`; or it hands out a block of at least
-- `need` bytes and less than MIN_ALLOC more, the heap is sound with that block held, and giving
-- the block back at once restores the free list.
pub alloc-HandedOut :
    (h : Heap) (live : List Blk) (size : ℕ)
    → IsValid h live
    → size < 2 ^ 32 - 11
    → (need : ℕ) × IsLeast size need × HandedOut h live need (alloc h size)
alloc-HandedOut h live size v b =
    (block_size size, block_size-IsLeast size b, alloc-block_size h live size v)

-- Up to 2 ^ 32 - 12 bytes a request is rounded up to 8-byte units, header included, with less than
-- 12 bytes over, or to the smallest block.
pub block_size_bounds :
    (size : ℕ)
    → size < 2 ^ 32 - 11
    → (size + 4 ≤ block_size size) × ((block_size size < size + 12) ⊎ (block_size size ≡ 16))
unfolding block_size
block_size_bounds size h = ground arith

block_size-wrap : (size : ℕ) → 2 ^ 32 - 11 ≤ size → size < 2 ^ 32 → block_size size ≡ block_size 12
unfolding block_size
block_size-wrap size lo hi = ground arith

-- The 11 largest requests wrap round: `alloc` and `alloc_stack` serve them as they serve a request
-- for 12 bytes, with a block of 16.
pub alloc_wraps :
    (h : Heap) (size : ℕ)
    → 2 ^ 32 - 11 ≤ size
    → size < 2 ^ 32
    → (alloc h size ≡ alloc h 12) × (alloc_stack h size ≡ alloc_stack h 12)
unfolding alloc alloc_stack
alloc_wraps h size lo hi =
    let small = block_size-wrap size lo hi in
    (
      ap (λ n. hand_out h (first_fit_loop n h.freelist)) small,
      ap (λ n. hand_out h (last_fit_loop n h.freelist)) small,
    )
