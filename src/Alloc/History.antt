-- ===== src/Alloc/History.antt =====
-- Any history of calls on the heap of src/system/alloc.c, from `initmem` on.
use teatime_os.Base.{
  ℕ, zero, suc, ◌+◌, ◌-◌, ◌%◌, ◌^◌, ◌≤◌, ◌<◌, ◌≡◌, refl, sym, subst, List, [], ◌∷◌, Option, none,
  some, All, arith, add32,
}
use teatime_os.Alloc.FreeList.{Blk, blk, insert_free, total}
use teatime_os.Alloc.Shape.{IsBlock, Disjoint, Apart, sizes}
use teatime_os.Alloc.Insert.{insert_free-IsFree, sizes-insert_free}
use teatime_os.Alloc.Disjoint.{Apart-insert_free}
use teatime_os.Alloc.Ownership.{
  IsValid, Distinct, HandedOut, alloc-block_size, alloc_stack-block_size,
}
use teatime_os.Alloc.{block_size, Heap, alloc, alloc_stack, free, heap_available, initmem}

also_with : Blk → Option (Blk × List Blk) → Option (Blk × List Blk)
also_with b none = none
also_with b (some (c, others)) = some (c, b ∷ others)

-- The block at place `i` of a list, and the others.
pub pull : ℕ → List Blk → Option (Blk × List Blk)
unfolding also_with
pull i [] = none
pull zero (b ∷ live) = some (b, live)
pull (suc i) (b ∷ live) = also_with b (pull i live)

abbrev Picked : (Blk → Type 0) → Option (Blk × List Blk) → Type 0
Picked P none = Unit
Picked P (some (b, others)) = P b × All P others

Picked-also_with :
    (P : Blk → Type 0) (b : Blk) (o : Option (Blk × List Blk))
    → P b
    → Picked P o
    → Picked P (also_with b o)
unfolding also_with
Picked-also_with P b none h k = tt
Picked-also_with P b (some (c, others)) h k = (k.0, (h, k.1))

pull-Picked : (P : Blk → Type 0) (i : ℕ) (live : List Blk) → All P live → Picked P (pull i live)
unfolding pull
pull-Picked P i [] h = tt
pull-Picked P zero (b ∷ live) h = h
pull-Picked P (suc i) (b ∷ live) h =
    Picked-also_with P b (pull i live) h.0 (pull-Picked P i live h.1)

abbrev Alone : Option (Blk × List Blk) → Type 0
Alone none = Unit
Alone (some (b, others)) = Apart b others × Distinct others

Alone-also_with :
    (b : Blk) (o : Option (Blk × List Blk))
    → Picked (Disjoint b) o
    → Alone o
    → Alone (also_with b o)
unfolding also_with
Alone-also_with b none h k = tt
Alone-also_with b (some (c, others)) h k = ((ground arith, k.0), (h.1, k.1))

pull-Alone : (i : ℕ) (live : List Blk) → Distinct live → Alone (pull i live)
unfolding pull
pull-Alone i [] h = tt
pull-Alone zero (b ∷ live) h = h
pull-Alone (suc i) (b ∷ live) h =
    Alone-also_with b (pull i live) (pull-Picked (Disjoint b) i live h.0) (pull-Alone i live h.1)

abbrev Counted : ℕ → Option (Blk × List Blk) → Type 0
Counted n none = Unit
Counted n (some (b, others)) = b.size + sizes others ≡ n

pull-Counted : (i : ℕ) (live : List Blk) → Counted (sizes live) (pull i live)
unfolding pull also_with
pull-Counted i [] = tt
pull-Counted zero (b ∷ live) = refl
pull-Counted (suc i) (b ∷ live) = go (pull i live) (pull-Counted i live)
  where
    go :
        (o : Option (Blk × List Blk))
        → Counted (sizes live) o
        → Counted (b.size + sizes live) (also_with b o)
    go none h = tt
    go (some (c, others)) h = omega arith

Apart-flip : (b : Blk) (live : List Blk) → Apart b live → All (λ (c : Blk). Disjoint c b) live
Apart-flip b [] a = tt
Apart-flip b (c ∷ live) a = (ground arith, Apart-flip b live a.1)

Apart-insert :
    (h : Heap) (b : Blk) (others : List Blk)
    → All (IsBlock h.heap_start h.heap_end) others
    → All (λ (c : Blk). Disjoint c b) others
    → All (λ (c : Blk). Apart c h.freelist) others
    → All (λ (c : Blk). Apart c (insert_free b h.freelist)) others
Apart-insert h b [] bs d a = tt
Apart-insert h b (c ∷ others) bs d a =
    (Apart-insert_free c (ground arith) b h.freelist d.0 a.0, Apart-insert h b others bs.1 d.1 a.1)

-- A block that is held and given back: the others stay as they are, and its bytes are free again.
pub free-IsValid :
    (h : Heap) (live : List Blk) (i : ℕ) (b : Blk) (others : List Blk)
    → IsValid h live
    → pull i live ≡ some (b, others)
    → IsValid (free h (b.addr + 4)) others
unfolding free
free-IsValid h live i b others v e =
    rw (header_eq, back)
      (record {
        small = v.small;
        free_blocks =
            insert_free-IsFree h.heap_start h.heap_end b h.freelist blocks.0 v.free_blocks apart.0;
        live_blocks = blocks.1;
        apart = Apart-insert h b others blocks.1 (Apart-flip b others alone.0) apart.1;
        distinct = alone.1;
        headers = headers.1;
        covered = omega (arith, sizes-insert_free b h.freelist, counted, v.covered);
      })
  where
    blocks : Picked (IsBlock h.heap_start h.heap_end) (some (b, others))
    blocks = subst (Picked _) e (pull-Picked _ i live v.live_blocks)

    apart : Picked (λ (c : Blk). Apart c h.freelist) (some (b, others))
    apart = subst (Picked _) e (pull-Picked _ i live v.apart)

    headers : Picked (λ (c : Blk). h.header c.addr ≡ c.size) (some (b, others))
    headers = subst (Picked _) e (pull-Picked _ i live v.headers)

    alone : Alone (some (b, others))
    alone = subst Alone e (pull-Alone i live v.distinct)

    counted : Counted (sizes live) (some (b, others))
    counted = subst (Counted (sizes live)) e (pull-Counted i live)

    back : b.addr + 4 - 4 ≡ b.addr
    back = omega arith

    header_eq : h.header (b.addr + 4 - 4) ≡ b.size
    header_eq = rw back headers.0

pub data Call : Type 0 where
  allocs allocs_stack : ℕ → Call
  frees : ℕ → Call

pub record Owned : Type 0 where
  pub heap : Heap
  pub live : List Blk

-- A caller that is given a pointer holds the block that the size word in front of it describes.
receive : List Blk → Heap × Option ℕ → Owned
receive live (h, none) = record { heap = h; live = live }
receive live (h, some p) = record { heap = h; live = blk (p - 4) (h.header (p - 4)) ∷ live }

give_back : Owned → Option (Blk × List Blk) → Owned
give_back o none = o
give_back o (some (b, others)) = record { heap = free o.heap (b.addr + 4); live = others }

-- A program that gives back only what it holds.
pub step : Owned → Call → Owned
unfolding receive give_back pull
step o (allocs size) = receive o.live (alloc o.heap size)
step o (allocs_stack size) = receive o.live (alloc_stack o.heap size)
step o (frees i) = give_back o (pull i o.live)

pub run : Owned → List Call → Owned
unfolding step
run o [] = o
run o (c ∷ calls) = run (step o c) calls

unfoldable pub boot : ℕ → ℕ → (ℕ → ℕ) → Owned
boot heap_start heap_end header = record { heap = initmem heap_start heap_end header; live = [] }

abbrev pub IsSound : Owned → Type 0
IsSound o = IsValid o.heap o.live

receive-IsSound :
    (h : Heap) (live : List Blk) (need : ℕ) (r : Heap × Option ℕ)
    → IsValid h live
    → HandedOut h live need r
    → IsSound (receive live r)
unfolding receive
receive-IsSound h live need (h', none) v (same, _) = subst (λ k. IsValid k live) (sym same) v
receive-IsSound h live need (h', some p) v (r, at, _, _, v', _) =
    let here : p - 4 ≡ r.addr = omega arith in rw (here, v'.headers.0) v'

give_back-IsSound :
    (o : Owned) (i : ℕ) (r : Option (Blk × List Blk))
    → IsSound o
    → pull i o.live ≡ r
    → IsSound (give_back o r)
unfolding give_back
give_back-IsSound o i none v e = v
give_back-IsSound o i (some (b, others)) v e = free-IsValid o.heap o.live i b others v e

pub step-IsSound : (o : Owned) (c : Call) → IsSound o → IsSound (step o c)
unfolding step
step-IsSound o (allocs size) v =
    receive-IsSound o.heap o.live (block_size size) (alloc o.heap size) v
      (alloc-block_size o.heap o.live size v)
step-IsSound o (allocs_stack size) v =
    receive-IsSound o.heap o.live (block_size size) (alloc_stack o.heap size) v
      (alloc_stack-block_size o.heap o.live size v)
step-IsSound o (frees i) v = give_back-IsSound o i (pull i o.live) v refl

pub run-IsSound : (o : Owned) (calls : List Call) → IsSound o → IsSound (run o calls)
unfolding run
run-IsSound o [] v = v
run-IsSound o (c ∷ calls) v = run-IsSound (step o c) calls (step-IsSound o c v)

pub boot-IsSound :
    (heap_start heap_end : ℕ) (header : ℕ → ℕ)
    → heap_start % 8 ≡ 0
    → heap_start + 16 ≤ heap_end
    → heap_end + 16 < 2 ^ 32
    → IsSound (boot heap_start heap_end header)
unfolding boot initmem
boot-IsSound heap_start heap_end header a b c = record {
  small = omega arith;
  free_blocks = (ground arith, tt);
  live_blocks = tt;
  apart = tt;
  distinct = tt;
  headers = tt;
  covered = omega arith;
}

total-sizes : (acc : ℕ) (l : List Blk) → acc + sizes l < 2 ^ 32 → total acc l ≡ acc + sizes l
unfolding total
total-sizes acc [] h = omega arith
total-sizes acc (b ∷ l) h =
    let fits : add32 acc b.size ≡ acc + b.size = omega arith in
    rw fits (omega (arith, total-sizes (acc + b.size) l (omega arith)))

-- `heap_available` is exact: what it reports and what is handed out make up the whole heap.
pub heap_available-covers :
    (o : Owned)
    → IsSound o
    → o.heap.heap_start + heap_available o.heap + sizes o.live ≡ o.heap.heap_end
unfolding heap_available
heap_available-covers o v =
    omega (arith, total-sizes 0 o.heap.freelist (omega (arith, v.covered, v.small)), v.covered)

-- From `initmem` on, after any calls of `alloc`, `alloc_stack` and `free` by a program that gives
-- back only what it holds: the free list is in address order, its blocks are 8-byte aligned, at
-- least MIN_ALLOC long and never adjacent, the blocks that are held overlap neither each other nor
-- a free block, their size words are intact, and `heap_available` together with the held blocks is
-- the whole heap. The heap starts aligned and is at least 16 bytes, and ends below 2 ^ 32 - 16.
pub heap_history-IsSound :
    (heap_start heap_end : ℕ) (header : ℕ → ℕ) (calls : List Call)
    → heap_start % 8 ≡ 0
    → heap_start + 16 ≤ heap_end
    → heap_end + 16 < 2 ^ 32
    → let o = run (boot heap_start heap_end header) calls in
      IsSound o × (o.heap.heap_start + heap_available o.heap + sizes o.live ≡ o.heap.heap_end)
heap_history-IsSound heap_start heap_end header calls a b c =
    let v = run-IsSound _ calls (boot-IsSound heap_start heap_end header a b c) in
    (v, heap_available-covers _ v)
