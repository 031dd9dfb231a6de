-- ===== src/Trace/Part2/Frees.antt =====
-- What the free of linklab/part2/memtrace.c, and of part3, does where bonus checks the pointer.
use system_programming_lab.Base.{
  ℕ, ◌+◌, ◌%◌, ◌^◌, ◌≡◌, ◌∙◌, refl, ap, false, Option, none, some, List, [], ◌∷◌, ◌++◌,
  Option-cases, inl, inr,
}
use system_programming_lab.Trace.Blocks.{Item, decrement, dealloc}
use system_programming_lab.Trace.Blocks.Search.{lowered, find-dealloc}
use mathlib.Core.Option
use system_programming_lab.Trace.Tracer.{
  Tracer, log_free, logged, find_in, with_dealloc, is_released, malloc, calloc, realloc,
}
use system_programming_lab.Trace.Tracer
use system_programming_lab.Trace.Tracer.Runs.{
  Call, malloc_call, calloc_call, realloc_call, free_call, step,
}
use system_programming_lab.Trace.Part2.{free}

find_in-dealloc :
    (o : Option (List Item)) (p : ℕ)
    → find_in (Option.map (λ l. dealloc l p) o) p ≡ lowered (find_in o p)
find_in-dealloc none p = refl
find_in-dealloc (some l) p = find-dealloc l p

-- A call of the tracer of part2, with what the C library returns for it.
unfoldable pub early_step : Call → Tracer → Option Tracer
unfolding malloc calloc realloc free
early_step (malloc_call size res caller) t = some (malloc size res caller t)
early_step (calloc_call nmemb size res caller) t = some (calloc nmemb size res caller t)
early_step (realloc_call p size res caller) t = realloc p size res caller t
early_step (free_call p) t = free p t

-- A program's calls, up to a crash.
unfoldable pub run : (Call → Tracer → Option Tracer) → List Call → Tracer → Option Tracer
run f [] t = some t
run f (c ∷ cs) t = elim (f c t) [ none ↦ none | some t' ↦ run f cs t' ]

-- A call of free is for a block whose count is above 0.
abbrev pub IsLive : Call → Tracer → Type 0
IsLive (free_call p) t = (m : Item) × (find_in t.list p ≡ some m) × (is_released m.cnt ≡ false)
IsLive c t = Unit

-- All calls of free in a program are.
abbrev pub IsClean : List Call → Tracer → Type 0
IsClean [] t = Unit
IsClean (c ∷ cs) t = IsLive c t × ((t' : Tracer) → step c t ≡ some t' → IsClean cs t')

free-live :
    (p : ℕ) (t : Tracer) (m : Item)
    → find_in t.list p ≡ some m
    → is_released m.cnt ≡ false
    → free p t ≡ some (Tracer.free p t)
unfolding free Tracer.free
free-live p t m e live =
    let low : find_in (Option.map (λ l. dealloc l p) t.list) p
        ≡ some (record m { cnt = decrement m.cnt }) =
      find_in-dealloc t.list p ∙ ap lowered e in
    rw (free, low, Tracer.free, e, live) refl

early_step-live : (c : Call) (t : Tracer) → IsLive c t → early_step c t ≡ step c t
unfolding early_step step
early_step-live (malloc_call size res caller) t h = refl
early_step-live (calloc_call nmemb size res caller) t h = refl
early_step-live (realloc_call p size res caller) t h = refl
early_step-live (free_call p) t (m, e, live) = free-live p t m e live

-- On a program whose calls of free are all for blocks that are allocated at that time, the tracer of
-- part2 does the same as that of bonus: the same log, the same counts and list, the same calls of the
-- C library's free, and a crash at the same call if there is one.
pub run-early_step :
    (cs : List Call) (t : Tracer) → IsClean cs t → run early_step cs t ≡ run step cs t
unfolding run
run-early_step [] t h = refl
run-early_step (c ∷ cs) t h = elim (Option-cases (step c t)) [
  | inl crash ↦
      let early : early_step c t ≡ none = early_step-live c t h.0 ∙ crash in
      rw (early, crash, run) refl
  | inr (t', ran) ↦
      let early : early_step c t ≡ some t' = early_step-live c t h.0 ∙ ran in
      rw (early, ran, run) (run-early_step cs t' (h.1 t' ran))
]

-- The tracer after a free of a block that the list holds.
abbrev pub unchecked : ℕ → Item → Tracer → Tracer
unchecked p m t = record t {
  list = Option.map (λ l. dealloc l p) t.list;
  log = t.log ++ log_free p ∷ [];
  free_size = (t.free_size + m.size) % 2 ^ 32;
  freed = t.freed ++ p ∷ [];
}

free-unchecked :
    (p : ℕ) (t : Tracer) (m : Item) → find_in t.list p ≡ some m → free p t ≡ some (unchecked p m t)
unfolding free
free-unchecked p t m e =
    let low : find_in (Option.map (λ l. dealloc l p) t.list) p
        ≡ some (record m { cnt = decrement m.cnt }) =
      find_in-dealloc t.list p ∙ ap lowered e in
    rw (free, low) refl

-- In part2 a block that the list holds, whatever its count is, can be freed twice: both calls are
-- served, pass the pointer on to the C library's free, and count the size of the block.
pub free-twice :
    (p : ℕ) (t : Tracer) (m : Item)
    → find_in t.list p ≡ some m
    → (t1 : Tracer) × (t2 : Tracer) × (free p t ≡ some t1)
      × (free p t1 ≡ some t2)
      × (t2.freed ≡ (t.freed ++ p ∷ []) ++ p ∷ [])
      × (t2.free_size ≡ ((t.free_size + m.size) % 2 ^ 32 + m.size) % 2 ^ 32)
free-twice p t m e =
    let m' : Item = record m { cnt = decrement m.cnt } in
    (
      unchecked p m t,
      unchecked p m' (unchecked p m t),
      free-unchecked p t m e,
      free-unchecked p (unchecked p m t) m' (find_in-dealloc t.list p ∙ ap lowered e),
      refl,
      refl,
    )
