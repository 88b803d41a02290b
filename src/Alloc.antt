-- ===== src/Alloc.antt =====
-- src/system/alloc.c, src/system/initmem.c and src/include/mem.h: the heap allocator.
pub mod FreeList
pub mod Shape
pub mod FirstFit
pub mod LastFit
pub mod Insert
pub mod Ownership
pub mod History
mod Tests
pub mod Disjoint
use teatime_os.Base.{
  ℕ, ◌+◌, ◌-◌, ◌*◌, ◌/◌, ◌%◌, ◌^◌, Bool, Option, none, some, List, [], ◌∷◌, ◌==◌, ltb,
  if◌then◌else◌, add32, sub32,
}
use FreeList.{Blk, blk, first_fit_loop, last_fit_loop, insert_free, total}

-- The heap's globals. `freelist` is the chain of free blocks from its head; `header` is the size
-- word in front of each block that is handed out.
pub record Heap : Type 0 where
  pub heap_start : ℕ
  pub heap_end : ℕ
  pub freelist : List Blk
  pub header : ℕ → ℕ

unfoldable pub ceil_memblk : ℕ → ℕ
ceil_memblk size = add32 7 size / 8 * 8

unfoldable pub floor_memblk : ℕ → ℕ
floor_memblk size = size / 8 * 8

-- The size of the block that a request for `size` bytes needs, its header included.
unfoldable pub block_size : ℕ → ℕ
unfolding ceil_memblk
block_size size = let rounded = ceil_memblk (add32 size 4) in if ltb rounded 16 then 16 else rounded

abbrev pub write_word : (ℕ → ℕ) → ℕ → ℕ → ℕ → ℕ
write_word header a v q = if q == a then v else header q

-- A block is handed out by the address of its `data`, which stands 4 bytes behind its size word.
hand_out : Heap → Option (Blk × List Blk) → Heap × Option ℕ
hand_out h none = (h, none)
hand_out h (some (b, rest)) =
    (record h { freelist = rest; header = write_word h.header b.addr b.size }, some (b.addr + 4))

unfoldable pub alloc : Heap → ℕ → Heap × Option ℕ
unfolding hand_out block_size first_fit_loop
alloc h size = hand_out h (first_fit_loop (block_size size) h.freelist)

unfoldable pub alloc_stack : Heap → ℕ → Heap × Option ℕ
unfolding hand_out block_size last_fit_loop
alloc_stack h size = hand_out h (last_fit_loop (block_size size) h.freelist)

unfoldable pub free : Heap → ℕ → Heap
unfolding insert_free
free h p = record h { freelist = insert_free (blk (p - 4) (h.header (p - 4))) h.freelist }

unfoldable pub heap_available : Heap → ℕ
unfolding total
heap_available h = total 0 h.freelist

-- `heap_start` and `heap_end` as the linker script gives them; the end is rounded down.
unfoldable pub initmem : ℕ → ℕ → (ℕ → ℕ) → Heap
unfolding floor_memblk
initmem heap_start heap_end header =
    let heap_size = floor_memblk (sub32 heap_end heap_start) in
    record {
      heap_start = heap_start;
      heap_end = heap_start + heap_size;
      freelist = blk heap_start heap_size ∷ [];
      header = header;
    }
