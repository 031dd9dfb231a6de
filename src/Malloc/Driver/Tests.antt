-- ===== src/Malloc/Driver/Tests.antt =====
-- Traces that `eval_mm_valid` and `eval_mm_util` of malloclab/mdriver.c replay.
use system_programming_lab.Base.{◌≡◌, ◌≢◌, ◌++◌, refl, some, List, [], ◌∷◌}
use system_programming_lab.Malloc.Driver.{
  alloc, realloc, free, Request, Replay, valid, realloc_failed, eval_mm_valid, eval_mm_util,
}
use system_programming_lab.Malloc.Driver.Realloc.{eval_mm_valid-realloc}

abbrev fresh : Replay
fresh = record {
  allocator = record {
    heap = record {
      mem = λ q. 0;
      mem_start_brk = 1000;
      mem_brk = 1000;
      mem_max_addr = 100000;
      heap_listp = 0;
      block_list_start = 0;
    };
    gl_ranges = some [];
  };
  blocks = λ i. 0;
  block_sizes = λ i. 0;
}

abbrev requests : List Request
requests = alloc 0 100 ∷ alloc 1 200 ∷ free 0 ∷ alloc 2 50 ∷ []

requests_valid : eval_mm_valid 9 9 requests fresh ≡ valid
unfolding eval_mm_valid
requests_valid = refl

requests_util : eval_mm_util 9 requests fresh ≡ some (300, 4152)
unfolding eval_mm_util
requests_util = refl

realloc_invalid : eval_mm_valid 9 9 (alloc 0 100 ∷ realloc 0 200 ∷ []) fresh ≡ realloc_failed 1
unfolding eval_mm_valid
realloc_invalid = refl

eval_mm_valid-realloc_example :
    eval_mm_valid 9 9 (requests ++ realloc 1 400 ∷ free 1 ∷ []) fresh ≢ valid
eval_mm_valid-realloc_example = eval_mm_valid-realloc 9 9 requests (free 1 ∷ []) 1 400 fresh
