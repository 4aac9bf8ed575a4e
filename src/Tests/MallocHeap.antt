-- ===== src/Tests/MallocHeap.antt =====
-- malloc/mm.c on a small heap.
use cs.Base.{ℕ, ◌-◌, ◌^◌, ◌≡◌, ◌≢◌, ◌⊎◌, refl, inl, [], ◌∷◌, some, All, arith, inr, ◌>>=◌}
use cs.Malloc.{
  Memory, Heap, mm_init, mm_malloc, mm_free, real_size_of, hdrp, get_size, add_to_front_list,
  replace_in_list, delete_from_list,
}
use cs.Malloc.FreeList.{IsFreeList, mm_init_lem, add_to_front_list_lem, delete_from_list_lem}
use cs.Malloc.Place.{AreOwn, IsPlaced}
use cs.Malloc.Replace.{replace_in_list_lem}
use cs.Malloc.Fit.{IsBlockSize, IsSmall, IsFirstFit, mm_malloc_lem}

abbrev zeroed : Memory
zeroed a = 0

abbrev new_heap : Heap
new_heap = mm_init zeroed 1024 512

new-IsFreeList : IsFreeList new_heap (1056 ∷ [])
new-IsFreeList = mm_init_lem zeroed 1024 512 (omega arith)

-- two blocks in a row, the first freed, and its place given out again
reuses :
    (mm_malloc 2 new_heap 100 >>= λ r. mm_malloc 2 (r.1) 10 >>= λ s.
    mm_malloc 3 (mm_free (s.1) (r.0)) 40 >>= λ t. some (r.0 ∷ s.0 ∷ t.0 ∷ []))
    ≡ some (1056 ∷ 1184 ∷ 1056 ∷ [])
unfolding mm_init mm_malloc mm_free
reuses = refl

-- a size that wraps around asks for a block that is too small
wraps : real_size_of (2 ^ 64 - 1) ≡ 16
unfolding real_size_of
wraps = refl

abbrev two_free : Heap
two_free = add_to_front_list new_heap 2048

two-IsFreeList : IsFreeList two_free (2048 ∷ 1056 ∷ [])
two-IsFreeList =
    add_to_front_list_lem new_heap (1056 ∷ []) 2048 new-IsFreeList (omega arith)
      (inr (omega arith), tt)

delete_from_list_lem_example : IsFreeList (delete_from_list two_free 1056) (2048 ∷ [])
delete_from_list_lem_example = delete_from_list_lem two_free (2048 ∷ []) [] 1056 two-IsFreeList

replace_in_list_lem_example : IsFreeList (replace_in_list two_free 1056 4096) (2048 ∷ 4096 ∷ [])
replace_in_list_lem_example =
    replace_in_list_lem two_free (2048 ∷ []) [] 1056 4096 two-IsFreeList (omega arith)
      (inr (omega arith), tt) (inr (omega arith)) tt

new-AreOwn : AreOwn new_heap.mem (1056 ∷ [])
unfolding mm_init get_size
new-AreOwn = ((omega arith, omega arith, (inl refl, tt)), tt)

mm_malloc_lem_example :
    (real_size : ℕ) × IsBlockSize 100 real_size
    × (((mm_malloc 2 new_heap 100 ≡ some (0, new_heap))
          × All (IsSmall new_heap.mem real_size) (1056 ∷ []))
        ⊎ ((p : ℕ) × (h' : Heap) × (p ≢ 0)
            × (mm_malloc 2 new_heap 100 ≡ some (p, h'))
            × ((first : IsFirstFit new_heap.mem real_size (1056 ∷ []) p) × IsPlaced new_heap p
                  real_size
                  (get_size new_heap.mem (hdrp p))
                  (first.before)
                  (first.behind)
                  h')))
mm_malloc_lem_example =
    mm_malloc_lem 2 new_heap 100 (1056 ∷ []) new-IsFreeList new-AreOwn (omega arith) (omega arith)
