-- ===== src/Trace/Part2.antt =====
-- The tracer of linklab/part2/memtrace.c, which also lists the blocks that are not freed, where its
-- functions differ from those of bonus: free, show_bloks and fini. The tracer of part3 has the same
-- free, and show_bloks as in bonus.
pub mod Frees
use system_programming_lab.Base.{
  ℕ, ◌/◌, Option, none, some, List, [], ◌∷◌, ◌++◌, ◌==◌, if◌then◌else◌, codes,
}
use system_programming_lab.Trace.Blocks.{Item, dealloc, find}
use system_programming_lab.Trace.Tracer.{
  Tracer, Entry, log_free, log_statistics, log_nonfreed_start, log_block, log_stop, logged,
  freed_size, with_dealloc, find_in, is_released, as_long,
}

-- The count is lowered whatever it is, and a pointer that the list does not hold is a NULL item, whose
-- size is read.
unfoldable pub free : ℕ → Tracer → Option Tracer
unfolding dealloc find
free p t =
    let t' : Tracer = logged (log_free p) (with_dealloc p t) in
    elim (find_in t'.list p) [
      | none ↦ none
      | some item ↦
          (let d : Tracer = freed_size item.size t' in
            some (record d { freed = d.freed ++ p ∷ [] }))
    ]

-- The entries of `show_bloks`.
unfoldable pub shown : List Item → List Entry
shown [] = []
shown (i ∷ is) =
    if is_released i.cnt
    then shown is
    else log_block i.ptr i.size i.cnt (codes "Nothing") i.ofs ∷ shown is

unfoldable pub fini : Tracer → Option Tracer
unfolding shown
fini t = if t.alloc_times == 0 then none else elim t.list [
  | none ↦ none
  | some list ↦ some (record t {
    log =
        (t.log
          ++ (log_statistics t.n_malloc (t.n_malloc / as_long t.alloc_times) t.free_size
              ∷ log_nonfreed_start
              ∷ shown list))
        ++ (log_stop ∷ []);
  })
]
