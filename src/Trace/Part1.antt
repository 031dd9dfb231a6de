-- ===== src/Trace/Part1.antt =====
-- The tracer of linklab/part1/memtrace.c, which only counts allocations, where its functions differ
-- from those of bonus: realloc, free and fini. malloc and calloc are the same.
use system_programming_lab.Base.{ℕ, ◌/◌, Option, none, some, [], ◌∷◌, ◌++◌, ◌==◌, if◌then◌else◌}
use system_programming_lab.Trace.Blocks.{Caller, alloc, dealloc}
use system_programming_lab.Trace.Tracer.{
  Tracer, log_realloc, log_free, log_statistics, log_stop, logged, counted, with_alloc,
  with_dealloc, as_long,
}

-- What `find` returns is not used.
unfoldable pub realloc : (p size res : ℕ) → Caller → Tracer → Tracer
unfolding alloc dealloc
realloc p size res caller t =
    counted size (with_alloc res size caller (with_dealloc p (logged (log_realloc p size res) t)))

unfoldable pub free : ℕ → Tracer → Tracer
unfolding dealloc
free p t =
    let t' : Tracer = logged (log_free p) (with_dealloc p t) in
    record t' { freed = t'.freed ++ p ∷ [] }

-- With no allocation the average divides by zero.
unfoldable pub fini : Tracer → Option Tracer
fini t =
    if t.alloc_times == 0
    then none
    else some (record t {
      log =
          t.log ++ log_statistics t.n_malloc (t.n_malloc / as_long t.alloc_times) 0 ∷ log_stop ∷ [];
    })
