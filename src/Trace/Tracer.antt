-- ===== src/Trace/Tracer.antt =====
-- The functions of linklab/bonus/memtrace.c. What the functions of the C library return is an
-- argument of each, and so is the caller that get_callinfo finds. `none` is a crash.
pub mod Runs
use system_programming_lab.Base.{
  ℕ, ◌+◌, ◌/◌, ◌%◌, ◌^◌, ◌-◌, ltb, Bool, true, false, Option, none, some, List, [], ◌∷◌, ◌++◌, ◌==◌,
  if◌then◌else◌,
}
use system_programming_lab.Trace.Blocks.{ℤ, pos, negsuc, Item, Caller, alloc, dealloc, find}
use mathlib.Core.Option

-- What the tracer logs.
pub data Entry : Type 0 where
  log_malloc : (size res : ℕ) → Entry
  log_calloc : (nmemb size res : ℕ) → Entry
  log_realloc : (ptr size res : ℕ) → Entry
  log_free : (ptr : ℕ) → Entry
  log_ill_free log_double_free : Entry
  log_statistics : (total average freed : ℕ) → Entry
  log_nonfreed_start : Entry
  log_block : (ptr size : ℕ) → ℤ → List ℕ → ℕ → Entry
  log_stop : Entry

-- The static variables, the log, and the calls of the C library's free. `alloc_times` and
-- `free_size` are the 32-bit patterns of ints, `n_malloc` is a 64-bit unsigned long.
pub record Tracer : Type 0 where
  pub list : Option (List Item)
  pub n_malloc : ℕ
  pub alloc_times : ℕ
  pub free_size : ℕ
  pub log : List Entry
  pub freed : List ℕ

abbrev pub logged : Entry → Tracer → Tracer
logged e t = record t { log = t.log ++ (e ∷ []) }

-- `n_malloc += size; alloc_times++`
abbrev pub counted : ℕ → Tracer → Tracer
counted size t = record t {
  n_malloc = (t.n_malloc + size) % 2 ^ 64;
  alloc_times = (t.alloc_times + 1) % 2 ^ 32;
}

-- `free_size += tempp->size`
abbrev pub freed_size : ℕ → Tracer → Tracer
freed_size size t = record t { free_size = (t.free_size + size) % 2 ^ 32 }

abbrev pub with_alloc : (ptr size : ℕ) → Caller → Tracer → Tracer
with_alloc ptr size caller t = record t {
  list = Option.map (λ list. alloc list ptr size caller) t.list;
}

abbrev pub with_dealloc : ℕ → Tracer → Tracer
with_dealloc p t = record t { list = Option.map (λ list. dealloc list p) t.list }

abbrev pub find_in : Option (List Item) → ℕ → Option Item
find_in none p = none
find_in (some list) p = find list p

unfoldable pub malloc : (size res : ℕ) → Caller → Tracer → Tracer
unfolding alloc
malloc size res caller t =
    with_alloc res size caller (counted size (logged (log_malloc size res) t))

-- A pointer that the list does not hold is a NULL item, whose size is read.
unfoldable pub realloc : (p size res : ℕ) → Caller → Tracer → Option Tracer
unfolding alloc dealloc find
realloc p size res caller t =
    let t' : Tracer = logged (log_realloc p size res) t in
    elim (find_in t'.list p) [
      | none ↦ none
      | some item ↦
          some
            (counted size (with_alloc res size caller (with_dealloc p (freed_size item.size t'))))
    ]

unfoldable pub calloc : (nmemb size res : ℕ) → Caller → Tracer → Tracer
unfolding alloc
calloc nmemb size res caller t =
    counted size (with_alloc res size caller (logged (log_calloc nmemb size res) t))

-- `cnt <= 0`
abbrev pub is_released : ℤ → Bool
is_released (pos n) = n == 0
is_released (negsuc n) = true

unfoldable pub free : ℕ → Tracer → Tracer
unfolding dealloc find
free p t =
    let t' : Tracer = logged (log_free p) t in
    elim (find_in t'.list p) [
      | none ↦ logged log_ill_free t'
      | some item ↦
          if is_released item.cnt
          then logged log_double_free t'
          else (let d : Tracer = with_dealloc p (freed_size item.size t') in
              record d { freed = d.freed ++ (p ∷ []) })
    ]

-- The entries of `show_bloks`.
unfoldable pub shown : List Item → List Entry
shown [] = []
shown (i ∷ is) =
    if is_released i.cnt then shown is else log_block i.ptr i.size i.cnt i.fname i.ofs ∷ shown is

-- An int as an unsigned long.
abbrev pub as_long : ℕ → ℕ
as_long n = if ltb n (2 ^ 31) then n else n + (2 ^ 64 - 2 ^ 32)

-- `fini`. With no allocation the average divides by zero, and a list that is NULL is read.
unfoldable pub fini : Tracer → Option Tracer
unfolding shown
fini t = if t.alloc_times == 0 then none else elim t.list [
  | none ↦ none
  | some list ↦ some (record t {
    log =
        (t.log
          ++ (log_statistics t.n_malloc (t.n_malloc / as_long t.alloc_times) t.free_size
              ∷ log_nonfreed_start
              ∷ shown list))
        ++ (log_stop ∷ []);
  })
]
