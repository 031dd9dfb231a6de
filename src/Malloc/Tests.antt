-- ===== src/Malloc/Tests.antt =====
-- Runs of the allocator of malloclab/mm.c on a heap from the address 1000.
use system_programming_lab.Base.{
  ℕ, zero, suc, ◌+◌, ◌-◌, ◌*◌, ◌%◌, ◌^◌, ◌≤◌, ◌<◌, ◌≡◌, ◌⊎◌, refl, false, none, some, List, [], ◌∷◌,
  ◌==◌, if◌then◌else◌, All, length, arith,
}
use system_programming_lab.Malloc.Memory.{Heap, get_size, hdrp, mem_heap_lo, mem_heap_hi}
use system_programming_lab.Malloc.FreeList.{
  free_category, get_free_category_root, insert_free_block, remove_free_block,
}
use system_programming_lab.Malloc.FreeList.Chain.{Chain}
use system_programming_lab.Malloc.FreeList.Sorted.{
  size_of, smaller, not_smaller, insert_by, IsSortedBy,
}
use system_programming_lab.Malloc.FreeList.Insert.{insert_free_block_lem}
use system_programming_lab.Malloc.FreeList.Remove.{remove_free_block_lem}
use system_programming_lab.Malloc.Fit.{found, find_fit}
use system_programming_lab.Malloc.Fit.Lists.{FreeLists}
use system_programming_lab.Malloc.Fit.Best.{find_fit-best}
use system_programming_lab.Malloc.Blocks.{Allocated, block, null, no_fuel}
use system_programming_lab.Malloc.Ranges.{
  Range, added, add_range, remove_range, IsDisjoint, IsWithin,
}
use system_programming_lab.Malloc.Ranges.Overlap.{
  add_range_lem, add_range-covering, remove_range-add_range,
}
use system_programming_lab.Malloc.Api.{
  Package, Initialised, ready, failed, unfinished, adjusted, mm_init, mm_malloc,
}
use system_programming_lab.Malloc.Api.Sizes.{adjusted-wraps}

abbrev empty_package : Package
empty_package = record {
  heap = record {
    mem = λ q. 0;
    mem_start_brk = 1000;
    mem_brk = 1000;
    mem_max_addr = 100000;
    heap_listp = 0;
    block_list_start = 0;
  };
  gl_ranges = none;
}

abbrev first_block : Initialised → List ℕ
first_block (ready s) = get_size s.heap (hdrp 1056) ∷ s.heap.mem_brk ∷ s.heap.heap_listp ∷ []
first_block (failed s) = []
first_block unfinished = []

init_block : first_block (mm_init 5 none empty_package) ≡ 4096 ∷ 5152 ∷ 1048 ∷ []
unfolding mm_init
init_block = refl

abbrev malloc_after : ℕ → Initialised → Allocated
malloc_after size (ready s) = mm_malloc 5 size s.heap
malloc_after size (failed s) = no_fuel
malloc_after size unfinished = no_fuel

abbrev address : Allocated → List ℕ
address (block bp h) =
    bp ∷ get_size h (hdrp bp) ∷ get_size h (hdrp (bp + get_size h (hdrp bp))) ∷ []
address (null h) = []
address no_fuel = []

malloc_block : address (malloc_after 100 (mm_init 5 none empty_package)) ≡ 1056 ∷ 112 ∷ 3984 ∷ []
unfolding mm_init mm_malloc
malloc_block = refl

malloc_grown : address (malloc_after 5000 (mm_init 5 none empty_package)) ≡ 1056 ∷ 5008 ∷ 4096 ∷ []
unfolding mm_init mm_malloc
malloc_grown = refl

-- A free list of the blocks at 1104 and 1200, of 16 and 32 bytes, and a block of 24 bytes at 1056.
abbrev listed_words : ℕ → ℕ
listed_words q =
    if q == 1000
    then 1104
    else if q == 1052
    then 24
    else if q == 1100
    then 16
    else if q == 1108
    then 1200
    else if q == 1196
    then 32
    else if q == 1200
    then 1104
    else 0

abbrev listed : Heap
listed = record {
  mem = listed_words;
  mem_start_brk = 1000;
  mem_brk = 5152;
  mem_max_addr = 100000;
  heap_listp = 1048;
  block_list_start = 1000;
}

insert_free_block_lem_example :
    (h' : Heap) × (insert_free_block 5 1056 listed ≡ some h')
    × Chain h'.mem 0
        (h'.mem (get_free_category_root listed (size_of listed 1056)))
        (insert_by (size_of listed) 1056 (1104 ∷ 1200 ∷ []))
    × IsSortedBy (size_of listed) (insert_by (size_of listed) 1056 (1104 ∷ 1200 ∷ []))
    × (h'.mem 1100 ≡ 16)
unfolding insert_free_block smaller not_smaller
insert_free_block_lem_example =
    insert_free_block_lem 5 listed 1056 (1104 ∷ 1200 ∷ []) 1100 refl (omega arith)
      (refl, omega arith) ((refl, omega arith), (omega arith, tt), ((refl, omega arith), tt, tt))
      (omega arith, (omega arith, tt)) (refl, refl, (refl, refl, refl))
      ((omega arith, tt), (tt, tt)) (omega arith) (omega arith) (omega arith)
      ((omega arith, omega arith), ((omega arith, omega arith), ((omega arith, omega arith), tt)))

remove_free_block_lem_example :
    Chain
      (remove_free_block 1200 listed).mem
      0
      ((remove_free_block 1200 listed).mem (get_free_category_root listed (size_of listed 1200)))
      (1104 ∷ [])
    × ((remove_free_block 1200 listed).mem 1200 ≡ 0)
    × ((remove_free_block 1200 listed).mem 1204 ≡ 0)
    × ((remove_free_block 1200 listed).mem 1100 ≡ 16)
unfolding remove_free_block
remove_free_block_lem_example =
    remove_free_block_lem listed 1200 (1104 ∷ []) [] 1100 refl (omega arith)
      ((refl, omega arith), (omega arith, tt), ((refl, omega arith), tt, tt))
      (refl, refl, (refl, refl, refl)) (omega arith) (omega arith)
      ((omega arith, omega arith), ((omega arith, omega arith), tt))

abbrev its_lists : ℕ → List ℕ
its_lists i = if i == 0 then 1104 ∷ 1200 ∷ [] else []

its_FreeLists : FreeLists listed its_lists
unfolding free_category
its_FreeLists = record {
  at_root = refl;
  chains = its_chains;
  positive = its_positive;
  sorted = its_sorted;
  kinds = its_kinds;
}
  where
    its_chains : (i : ℕ) → i < 10 → Chain listed.mem 0 (listed.mem (1000 + i * 4)) (its_lists i)
    its_chains zero lt = (refl, refl, (refl, refl, refl))
    its_chains (suc i) lt = let z : (suc i == 0) ≡ false = ground arith in rw z (ground arith)

    its_positive : (i : ℕ) → i < 10 → All (λ x. 0 < x) (its_lists i)
    its_positive zero lt = (omega arith, (omega arith, tt))
    its_positive (suc i) lt = let z : (suc i == 0) ≡ false = ground arith in rw z tt

    its_sorted : (i : ℕ) → i < 10 → IsSortedBy (size_of listed) (its_lists i)
    its_sorted zero lt = ((omega arith, tt), (tt, tt))
    its_sorted (suc i) lt = let z : (suc i == 0) ≡ false = ground arith in rw z tt

    its_kinds : (i : ℕ) → i < 10 → All (λ x. free_category (size_of listed x) ≡ i) (its_lists i)
    its_kinds zero lt = (refl, (refl, tt))
    its_kinds (suc i) lt = let z : (suc i == 0) ≡ false = ground arith in rw z tt

its_lengths : (i : ℕ) → i < 10 → length (its_lists i) < 5
its_lengths i lt = ground arith

its_sizes : (i : ℕ) → i < 10 → All (λ x. size_of listed x < 40) (its_lists i)
its_sizes zero lt = (omega arith, (omega arith, tt))
its_sizes (suc i) lt = let z : (suc i == 0) ≡ false = ground arith in rw z tt

find_fit-best_example :
    (p : ℕ) × (find_fit 5 24 listed ≡ found p) × (24 ≤ size_of listed p) × (size_of listed p ≤ 32)
find_fit-best_example =
    find_fit-best listed its_lists 24 5 0 1 1200 its_FreeLists its_lengths (omega arith) refl
      (omega arith)

adjusted-wraps_example : adjusted (2 ^ 32 - 1) ≤ 8
adjusted-wraps_example = adjusted-wraps (2 ^ 32 - 1) (omega arith) (omega arith)

abbrev some_range : Range
some_range = record { lo = 1104; hi = 1110 }

add_range_lem_example :
    (record { lo = 1056; hi = 1095 } ∷ some_range ∷ []
      ≡ record { lo = 1056; hi = 1095 } ∷ some_range ∷ [])
    × (1056 % 8 ≡ 0)
    × (mem_heap_lo listed ≤ 1056)
    × (1095 ≤ mem_heap_hi listed)
    × All (λ p. IsDisjoint 1056 1095 p ⊎ IsWithin 1056 1095 p) (some_range ∷ [])
unfolding add_range
add_range_lem_example =
    add_range_lem listed (some_range ∷ []) (record { lo = 1056; hi = 1095 } ∷ some_range ∷ []) 1056
      40 (omega arith) (omega arith, tt) refl

add_range-covering_example :
    add_range listed (some_range ∷ []) 1056 80
    ≡ added (record { lo = 1056; hi = 1135 } ∷ some_range ∷ [])
add_range-covering_example =
    add_range-covering listed some_range [] 1056 80 refl (omega arith) (omega arith) (omega arith)
      (omega arith, omega arith) tt

remove_range-add_range_example :
    remove_range (record { lo = 1056; hi = 1095 } ∷ some_range ∷ []) 1056 ≡ some_range ∷ []
unfolding add_range
remove_range-add_range_example =
    remove_range-add_range listed (some_range ∷ [])
      (record { lo = 1056; hi = 1095 } ∷ some_range ∷ []) 1056 40 refl
