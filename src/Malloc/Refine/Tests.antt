-- ===== src/Malloc/Refine/Tests.antt =====
-- Runs of malloclab/mm.c from a heap at the address 1000, and a heap of an allocated block and a free
-- one, with its heap checker.
use system_programming_lab.Base.{
  ℕ, zero, suc, ◌+◌, ◌*◌, ◌%◌, ◌≤◌, ◌<◌, ◌≡◌, ◌++◌, true, false, refl, inl, inr, ◌⊎◌, none, some,
  List, [], ◌∷◌, ◌==◌, if◌then◌else◌, All, length, arith,
}
use system_programming_lab.Malloc.Memory.{Heap, chunksize}
use system_programming_lab.Malloc.FreeList.{free_category}
use system_programming_lab.Malloc.FreeList.Chain.{Chain, Places}
use system_programming_lab.Malloc.FreeList.Sorted.{IsSortedBy}
use system_programming_lab.Malloc.Fit.{categories}
use system_programming_lab.Malloc.Blocks.{Allocated, block, null, no_fuel}
use system_programming_lab.Malloc.Api.{
  Package, Initialised, ready, failed, unfinished, mm_init, mm_malloc, mm_free,
}
use system_programming_lab.Malloc.Layout.{
  used, listed, Block, has, listed_at, listed_count, size_in,
}
use system_programming_lab.Malloc.Layout.Lists.{blk}
use system_programming_lab.Malloc.Check.{
  Message, not_coalesced, all_marked_free, none_escaped, every_block_listed, list_pointers_valid,
  heap_pointers_valid, check_escaped_coalesce, is_every_free_block_in_free_list, mm_check,
}
use system_programming_lab.Malloc.Check.Escaped.{separate, check_escaped_coalesce-separate}
use system_programming_lab.Malloc.Check.Passes.{is_every_free_block_in_free_list-vacuous}
use system_programming_lab.Malloc.Check.Messages.{mm_check-passes}
use system_programming_lab.Malloc.Refine.{Represents, Keeps}
use system_programming_lab.Malloc.Refine.Free.{mm_free-Represents}
use system_programming_lab.Malloc.Refine.Malloc.{Served, wanted_brk, mm_malloc-Represents}
use system_programming_lab.Malloc.Refine.Init.{mm_init-Represents}
use system_programming_lab.Malloc.Refine.Bounds.{mm_malloc-Apart}
use system_programming_lab.Malloc.Refine.Runs.{IsFresh, Run, Holds, Run-Holds}

abbrev new_package : Package
new_package = record {
  heap = record {
    mem = λ q. 0;
    mem_start_brk = 1000;
    mem_brk = 1000;
    mem_max_addr = 100000;
    heap_listp = 0;
    block_list_start = 0;
  };
  gl_ranges = none;
}

mm_init-Represents_example :
    (h' : Heap) × (mm_init 10 none new_package ≡ ready (record { heap = h'; gl_ranges = none }))
    × (h'.mem_brk ≡ 1000 + 56 + chunksize)
    × (r : Represents h' [] 1) × (r.blocks ≡ blk chunksize listed ∷ [])
mm_init-Represents_example =
    mm_init-Represents 10 none new_package refl (omega arith) (omega arith) (omega arith)
      (omega arith)

-- A block of 24 bytes that is allocated, and a free one of 16 behind it.
abbrev two_words : ℕ → ℕ
two_words q =
    if q == 1000
    then 1080
    else if q == 1044
    then 9
    else if q == 1048
    then 9
    else if q == 1052
    then 25
    else if q == 1072
    then 25
    else if q == 1076
    then 16
    else if q == 1088
    then 16
    else if q == 1092
    then 1
    else 0

abbrev two : Heap
two = record {
  mem = two_words;
  mem_start_brk = 1000;
  mem_brk = 1096;
  mem_max_addr = 100000;
  heap_listp = 1048;
  block_list_start = 1000;
}

abbrev two_lists : ℕ → List ℕ
two_lists zero = 1080 ∷ []
two_lists (suc i) = []

abbrev two_blocks : List Block
two_blocks = blk 24 used ∷ blk 16 listed ∷ []

two-members : (i x : ℕ) → has x (two_lists i) ≡ listed_at x i 1056 two_blocks
unfolding free_category
two-members zero x = ground arith
two-members (suc i) x = ground arith

two-chains : (i : ℕ) → i < categories → Chain two_words 0 (two_words (1000 + i * 4)) (two_lists i)
two-chains zero lt = (refl, refl, refl)
two-chains (suc i) lt = ground arith

two-Places : (i : ℕ) → Places 1040 (two_lists i)
two-Places zero = ((refl, omega arith), tt, tt)
two-Places (suc i) = tt

two-sorted : (i : ℕ) → IsSortedBy (size_in two_words) (two_lists i)
two-sorted zero = (tt, tt)
two-sorted (suc i) = tt

two-lengths : (i : ℕ) → length (two_lists i) ≤ listed_count i two_blocks
unfolding free_category
two-lengths zero = omega arith
two-lengths (suc i) = omega arith

two-Represents : Represents two ((1056, 24) ∷ []) 2
two-Represents = record {
  blocks = two_blocks;
  lists = two_lists;
  layout = record {
    aligned = refl;
    positive = omega arith;
    at_list = refl;
    at_brk = refl;
    in_bounds = omega arith;
    bounded = omega arith;
    contents = record {
      prologue = (refl, refl);
      epilogue = refl;
      tagged = (refl, refl, omega arith, refl, (refl, refl, omega arith, refl, tt));
      chains = two-chains;
      places = λ i lt. two-Places i;
      sorted = λ i lt. two-sorted i;
      members = λ i lt. two-members i;
      lengths = λ i lt. two-lengths i;
    };
  };
  settled = (inl refl, (inr (refl, refl), tt));
  live_blocks = refl;
  counted = omega arith;
}

abbrev two_package : Package
two_package = record { heap = two; gl_ranges = none }

mm_free-Represents_example :
    (m' : ℕ → ℕ) × (mm_free 5 1056 two_package
      ≡ some (record { heap = record two { mem = m' }; gl_ranges = none }))
    × Represents (record two { mem = m' }) [] 2
    × Keeps two_words m' []
mm_free-Represents_example =
    mm_free-Represents 5 2 two_package [] [] 1056 24 two-Represents (omega arith)

mm_malloc-Represents_example :
    Served 5 8 two ((1056, 24) ∷ []) 2
    ⊎ ((mm_malloc 5 8 two ≡ null two) × (100000 < wanted_brk 8 two))
mm_malloc-Represents_example =
    mm_malloc-Represents 5 2 8 two ((1056, 24) ∷ []) two-Represents (omega arith) (omega arith)
      (omega arith) (omega arith)

-- The free block is found, and taken whole.
abbrev pointer_of : Allocated → ℕ
pointer_of (block p h) = p
pointer_of (null h) = 0
pointer_of no_fuel = 1

two_fits : pointer_of (mm_malloc 5 8 two) ≡ 1080
unfolding mm_malloc
two_fits = refl

abbrev heap_of_malloc : Allocated → Heap
heap_of_malloc (block p h) = h
heap_of_malloc (null h) = h
heap_of_malloc no_fuel = two

mm_malloc-Apart_example :
    (1080 % 8 ≡ 0)
    × (1056 ≤ 1080)
    × (1080 + 8 + 8 ≤ (heap_of_malloc (mm_malloc 5 8 two)).mem_brk)
    × All {A = ℕ × ℕ} (λ b. (b.0 + b.1 ≤ 1080) ⊎ (1080 + 8 + 8 ≤ b.0)) ((1056, 24) ∷ [])
unfolding mm_malloc
mm_malloc-Apart_example =
    mm_malloc-Apart 5 2 8 two ((1056, 24) ∷ []) two-Represents (omega arith) (omega arith)
      (omega arith) (omega arith) 1080 (heap_of_malloc (mm_malloc 5 8 two)) refl

abbrev heap_of_init : Initialised → Heap
heap_of_init (ready s) = s.heap
heap_of_init (failed s) = s.heap
heap_of_init unfinished = two

abbrev first_package : Package
first_package = record { heap = heap_of_init (mm_init 10 none new_package); gl_ranges = none }

abbrev second_package : Package
second_package = record {
  heap = heap_of_malloc (mm_malloc 10 100 first_package.heap);
  gl_ranges = none;
}

new_package-IsFresh : IsFresh new_package.heap
new_package-IsFresh = record {
  aligned = refl;
  positive = omega arith;
  room = omega arith;
  bounded = omega arith;
}

first_run : Run 10 first_package [] 1
unfolding mm_init
first_run = Run.initialised new_package none new_package-IsFresh refl

second_run : Run 10 second_package (1056 ∷ []) 3
unfolding mm_init mm_malloc
second_run =
    Run.served first_package 100 1056 second_package.heap first_run (omega arith) (omega arith)
      (omega arith) refl

Run-Holds_example : Holds second_package (1056 ∷ []) 3
Run-Holds_example = Run-Holds 10 second_run (omega arith)

check_escaped_coalesce-separate_example :
    (out : List Message) × (check_escaped_coalesce 5 two ≡ some (out, separate false two_blocks))
unfolding two-Represents
check_escaped_coalesce-separate_example =
    check_escaped_coalesce-separate 5 two (blk 24 used) (blk 16 listed ∷ []) two_lists
      two-Represents.layout (omega arith)

mm_check-passes_example :
    (out : List Message) × (mm_check 5 two
      ≡ some (
          out
          ++ all_marked_free ∷ none_escaped ∷ every_block_listed ∷ list_pointers_valid
            ∷ heap_pointers_valid ∷ []))
mm_check-passes_example =
    mm_check-passes 5 2 two ((1056, 24) ∷ []) two-Represents (omega arith) refl (omega arith)

is_every_free_block_in_free_list-vacuous_example :
    (is_every_free_block_in_free_list 5 two ≡ none)
    ⊎ (is_every_free_block_in_free_list 5 two ≡ some true)
is_every_free_block_in_free_list-vacuous_example = is_every_free_block_in_free_list-vacuous 5 two

-- Two free blocks that are neighbours, in no list: only one test answers 0.
abbrev bad_words : ℕ → ℕ
bad_words q =
    if q == 1052
    then 16
    else if q == 1060
    then 16
    else if q == 1068
    then 16
    else if q == 1076
    then 16
    else if q == 1084
    then 1
    else 0

abbrev bad : Heap
bad = record two { mem = bad_words; mem_brk = 1088 }

bad_check :
    mm_check 5 bad
    ≡ some (
        not_coalesced 1056 1072
        ∷ all_marked_free
        ∷ every_block_listed
        ∷ list_pointers_valid
        ∷ heap_pointers_valid
        ∷ [])
unfolding mm_check
bad_check = refl
