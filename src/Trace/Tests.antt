-- ===== src/Trace/Tests.antt =====
-- Runs of the tracer of linklab/bonus/memtrace.c on concrete calls.
use system_programming_lab.Base.{
  ◌≡◌, ◌+◌, ◌%◌, ◌^◌, pos, codes, refl, inl, none, some, List, [], ◌∷◌, arith,
}
use system_programming_lab.Trace.Blocks.{Item, new_item, find}
use system_programming_lab.Trace.Part1
use system_programming_lab.Trace.Part2
use system_programming_lab.Trace.Part2.Frees.{early_step, run, IsClean, run-early_step, free-twice}
use system_programming_lab.Trace.Tracer.{
  log_block, Tracer, log_free, log_ill_free, log_double_free, logged, malloc, free, fini,
}
use system_programming_lab.Trace.Tracer.Runs.{
  free_call, malloc_call, Call, IsOrdered, step, step-IsOrdered, first_free, second_free,
  free-malloc,
}

abbrev two_items : List Item
two_items = new_item 100 8 none ∷ new_item 200 16 none ∷ []

abbrev tracing : Tracer
tracing = record {
  list = some two_items;
  n_malloc = 24;
  alloc_times = 2;
  free_size = 0;
  log = [];
  freed = [];
}

ill_free : (free 150 tracing).log ≡ log_free 150 ∷ log_ill_free ∷ []
unfolding free
ill_free = refl

average : (t : Tracer) × (fini tracing ≡ some t)
unfolding fini
average = (_, refl)

abbrev after_malloc : Tracer
after_malloc = malloc 32 150 none tracing

step-IsOrdered_example : IsOrdered after_malloc.list
unfolding step
step-IsOrdered_example =
    step-IsOrdered (malloc_call 32 150 none) tracing after_malloc ((omega arith, tt), (tt, tt)) refl

free-malloc_example :
    ((first_free tracing two_items 32 150 none).freed ≡ 150 ∷ [])
    × ((first_free tracing two_items 32 150 none).free_size ≡ 32)
    × (second_free tracing two_items 32 150 none
        ≡ logged log_double_free (logged (log_free 150) (first_free tracing two_items 32 150 none)))
unfolding find
free-malloc_example = free-malloc tracing two_items 32 150 none refl (inl refl)

abbrev clean_calls : List Call
clean_calls = free_call 100 ∷ malloc_call 8 300 none ∷ []

-- The first call frees a block that is allocated.
clean_calls-IsClean : IsClean clean_calls tracing
unfolding find
clean_calls-IsClean = ((new_item 100 8 none, refl, refl), (λ t e. (tt, λ t' e'. tt)))

run-early_step_example : run early_step clean_calls tracing ≡ run step clean_calls tracing
run-early_step_example = run-early_step clean_calls tracing clean_calls-IsClean

double_free :
    (t1 : Tracer) × (t2 : Tracer) × (Part2.free 100 tracing ≡ some t1)
    × (Part2.free 100 t1 ≡ some t2)
    × (t2.freed ≡ 100 ∷ 100 ∷ [])
    × (t2.free_size ≡ (8 % 2 ^ 32 + 8) % 2 ^ 32)
unfolding find
double_free = free-twice 100 tracing (new_item 100 8 none) refl

-- part1 logs what part2 logs, but for the blocks that are not freed and the sizes.
part1_average : (t : Tracer) × (Part1.fini tracing ≡ some t)
unfolding Part1.fini
part1_average = (_, refl)

part1_free : (Part1.free 100 tracing).freed ≡ 100 ∷ []
unfolding Part1.free
part1_free = refl

part2_nothing :
    Part2.shown two_items
    ≡ log_block 100 8 (pos 1) (codes "Nothing") 0
      ∷ log_block 200 16 (pos 1) (codes "Nothing") 0
      ∷ []
unfolding Part2.shown
part2_nothing = refl
