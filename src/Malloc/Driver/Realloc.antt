-- ===== src/Malloc/Driver/Realloc.antt =====
-- What `eval_mm_valid` of malloclab/mdriver.c says of a trace with a REALLOC request.
use system_programming_lab.Base.{
  ℕ, ◌+◌, ◌≡◌, ◌≢◌, refl, some, Option-cases, inl, inr, List, [], ◌∷◌, ◌++◌,
}
use system_programming_lab.Malloc.Memory.{Heap, mem_reset_brk}
use system_programming_lab.Malloc.Blocks.{Allocated, block, null, no_fuel}
use system_programming_lab.Malloc.Ranges.{
  Added, misaligned, outside, overlapping, added, add_range, clear_ranges,
}
use system_programming_lab.Malloc.Api.{
  Initialised, ready, failed, unfinished, mm_init, mm_malloc, mm_free,
}
use system_programming_lab.Malloc.Driver.{
  Request, alloc, realloc, free, Replay, Verdict, valid, ranges_of, accepted, valid_alloc,
  valid_realloc, valid_free, replay_valid, eval_mm_valid,
}

-- An accepted request goes on with the next one.
accepted-valid :
    (i index p size : ℕ) (h : Heap) (a : Added) (r : Replay) (next : Replay → Verdict)
    → accepted i index p size h a r next ≡ valid
    → (r' : Replay) × (next r' ≡ valid)
accepted-valid i index p size h (added ranges) r next e = (_, e)
accepted-valid i index p size h misaligned r next e = cc
accepted-valid i index p size h outside r next e = cc
accepted-valid i index p size h overlapping r next e = cc

valid_alloc-valid :
    (fuel i index size : ℕ) (r : Replay) (next : Replay → Verdict) (m : Allocated)
    → mm_malloc fuel size r.allocator.heap ≡ m
    → valid_alloc fuel i index size r next ≡ valid
    → (r' : Replay) × (next r' ≡ valid)
unfolding valid_alloc
valid_alloc-valid fuel i index size r next (block p h) e v =
    accepted-valid i index p size h (add_range h (ranges_of r.allocator) p size) r next
      (rw (valid_alloc, e) at v)
valid_alloc-valid fuel i index size r next (null h) e v = let v' = rw (valid_alloc, e) at v in cc
valid_alloc-valid fuel i index size r next no_fuel e v = let v' = rw (valid_alloc, e) at v in cc

valid_free-valid :
    (fuel index : ℕ) (r : Replay) (next : Replay → Verdict)
    → valid_free fuel index r next ≡ valid
    → (r' : Replay) × (next r' ≡ valid)
unfolding valid_free
valid_free-valid fuel index r next v =
    elim (Option-cases (mm_free fuel (r.blocks index) r.allocator)) [
      | inl e ↦ let v' = rw (valid_free, e) at v in cc
      | inr (s, e) ↦ (_, rw (valid_free, e) at v)
    ]

valid_realloc-invalid :
    (i index size : ℕ) (r : Replay) (next : Replay → Verdict)
    → valid_realloc i index size r next ≢ valid
unfolding valid_realloc
valid_realloc-invalid i index size r next v = cc

replay_valid-realloc :
    (rounds fuel i : ℕ) (ops rest : List Request) (index size : ℕ) (r : Replay)
    → replay_valid rounds fuel (ops ++ realloc index size ∷ rest) i r ≢ valid
unfolding replay_valid
replay_valid-realloc rounds fuel i [] rest index size r =
    valid_realloc-invalid i index size r (replay_valid rounds fuel rest (i + 1))
replay_valid-realloc rounds fuel i (alloc x n ∷ ops) rest index size r = λ v.
    let (r', v') =
      valid_alloc-valid fuel i x n r
        (replay_valid rounds fuel (ops ++ realloc index size ∷ rest) (i + 1)) _ refl v in
    replay_valid-realloc rounds fuel (i + 1) ops rest index size r' v'
replay_valid-realloc rounds fuel i (realloc x n ∷ ops) rest index size r =
    valid_realloc-invalid i x n r
      (replay_valid rounds fuel (ops ++ realloc index size ∷ rest) (i + 1))
replay_valid-realloc rounds fuel i (free x ∷ ops) rest index size r = λ v.
    let (r', v') =
      valid_free-valid fuel x r
        (replay_valid rounds fuel (ops ++ realloc index size ∷ rest) (i + 1)) v in
    replay_valid-realloc rounds fuel (i + 1) ops rest index size r' v'

eval-realloc :
    (rounds fuel : ℕ) (ops rest : List Request) (index size : ℕ) (r : Replay) (m : Initialised)
    → mm_init fuel
        (some (clear_ranges (ranges_of r.allocator)))
        (record (r.allocator) { heap = mem_reset_brk r.allocator.heap })
      ≡ m
    → eval_mm_valid rounds fuel (ops ++ realloc index size ∷ rest) r ≢ valid
unfolding eval_mm_valid
eval-realloc rounds fuel ops rest index size r (ready s) e v =
    replay_valid-realloc rounds fuel 0 ops rest index size (record r { allocator = s })
      (rw (eval_mm_valid, e) at v)
eval-realloc rounds fuel ops rest index size r (failed s) e v =
    let v' = rw (eval_mm_valid, e) at v in cc
eval-realloc rounds fuel ops rest index size r unfinished e v =
    let v' = rw (eval_mm_valid, e) at v in cc

-- `eval_mm_valid` accepts no trace with a REALLOC request, whatever stands before and behind it.
pub eval_mm_valid-realloc :
    (rounds fuel : ℕ) (ops rest : List Request) (index size : ℕ) (r : Replay)
    → eval_mm_valid rounds fuel (ops ++ realloc index size ∷ rest) r ≢ valid
unfolding eval_mm_valid
eval_mm_valid-realloc rounds fuel ops rest index size r v =
    eval-realloc rounds fuel ops rest index size r _ refl v
