-- ===== src/Alloc/Tests.antt =====
-- Runs of the allocator, and its theorems at concrete heaps.
use teatime_os.Base.{ℕ, ◌+◌, ◌≡◌, refl, List, [], ◌∷◌, some, arith}
use teatime_os.Alloc.FreeList.{blk, last_fit_loop}
use teatime_os.Alloc.Shape.{sizes}
use teatime_os.Alloc.LastFit.{last_fit_from_back, last_fit_loop_eq}
use teatime_os.Alloc.Ownership.{IsValid, IsLeast, HandedOut, alloc-HandedOut}
use teatime_os.Alloc.History.{
  Call, allocs, allocs_stack, frees, boot, boot-IsSound, run, IsSound, heap_history-IsSound,
}
use teatime_os.Alloc.{Heap, alloc, alloc_stack, free, heap_available, initmem}

abbrev heap : Heap
heap = initmem 4096 8195 (λ _. 0)

abbrev calls : List Call
calls = allocs 100 ∷ allocs_stack 64 ∷ allocs 20 ∷ frees 2 ∷ allocs 8 ∷ []

heap-IsValid : IsValid heap []
unfolding boot
heap-IsValid = boot-IsSound 4096 8195 (λ _. 0) (omega arith) (omega arith) (omega arith)

-- The stack comes from the far end of the heap.
alloc_stack_run : (alloc_stack heap 64).1 ≡ some 8124
unfolding alloc_stack initmem
alloc_stack_run = refl

alloc-free_run : (free (alloc heap 100).0 4100).freelist ≡ blk 4096 4096 ∷ []
unfolding alloc free initmem
alloc-free_run = refl

heap_history-IsSound_example :
    let o = run (boot 4096 8195 (λ _. 0)) calls in
    IsSound o × (o.heap.heap_start + heap_available o.heap + sizes o.live ≡ o.heap.heap_end)
heap_history-IsSound_example =
    heap_history-IsSound 4096 8195 (λ _. 0) calls (omega arith) (omega arith) (omega arith)

alloc-HandedOut_example : (need : ℕ) × IsLeast 100 need × HandedOut heap [] need (alloc heap 100)
alloc-HandedOut_example = alloc-HandedOut heap [] 100 heap-IsValid (omega arith)

last_fit_loop_eq_example :
    last_fit_loop 24 (blk 0 32 ∷ blk 64 64 ∷ blk 256 16 ∷ [])
    ≡ last_fit_from_back 24 (blk 0 32 ∷ blk 64 64 ∷ blk 256 16 ∷ [])
last_fit_loop_eq_example = last_fit_loop_eq 24 (blk 0 32 ∷ blk 64 64 ∷ blk 256 16 ∷ [])
