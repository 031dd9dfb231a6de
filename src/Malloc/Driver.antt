-- ===== src/Malloc/Driver.antt =====
-- `eval_mm_valid` and `eval_mm_util` of malloclab/mdriver.c: the replay of a trace of requests. The
-- fuel is that of the allocator, and `rounds` that of the loop of `mm_exit`.
pub mod Realloc
mod Tests
use system_programming_lab.Base.{
  ℕ, zero, suc, ◌+◌, ◌-◌, ◌*◌, ◌/◌, ◌%◌, ◌^◌, Bool, true, false, ◌&&◌, Option, none, some, List, [],
  ◌∷◌, ltb, leb, ◌==◌, if◌then◌else◌,
}
use system_programming_lab.Malloc.Memory.{Heap, mem_reset_brk, mem_heapsize}
use system_programming_lab.Malloc.Blocks.{Allocated, block, null, no_fuel, word}
use system_programming_lab.Malloc.Ranges.{
  Range, Added, misaligned, outside, overlapping, added, add_range, remove_range, clear_ranges,
}
use system_programming_lab.Malloc.Api.{
  Package, Initialised, ready, failed, unfinished, mm_init, mm_malloc, mm_free, mm_realloc, mm_exit,
}

-- A request with its index, and its size.
pub data Request : Type 0 where
  alloc : (index size : ℕ) → Request
  realloc : (index size : ℕ) → Request
  free : (index : ℕ) → Request

-- The allocator, and the arrays `blocks` and `block_sizes` of the trace.
pub record Replay : Type 0 where
  pub allocator : Package
  pub blocks : ℕ → ℕ
  pub block_sizes : ℕ → ℕ

abbrev pub update : (ℕ → ℕ) → ℕ → ℕ → ℕ → ℕ
update f index value i = if i == index then value else f i

abbrev pub remember : ℕ → ℕ → ℕ → Replay → Replay
remember index p size r = record r {
  blocks = update r.blocks index p;
  block_sizes = update r.block_sizes index size;
}

-- `memset(p, byte, size)` on the 4-byte words, the lowest byte first, for an aligned `p`: the word at
-- `q` has its first n bytes set.
abbrev pub set_bytes : (byte n old : ℕ) → ℕ
set_bytes byte n old = old / 256 ^ n * 256 ^ n + (256 ^ n - 1) / 255 * byte

abbrev pub fill : (p byte size : ℕ) → Heap → Heap
fill p byte size h = record h {
  mem = λ q.
      if leb p q && ltb q (p + size)
      then set_bytes byte (if ltb 4 (p + size - q) then 4 else p + size - q) (h.mem q)
      else h.mem q;
}

abbrev pub byte_at : Heap → ℕ → ℕ
byte_at h a = h.mem (a - a % 4) / 256 ^ (a % 4) % 256

-- `newp[j] == byte`, for a byte as the code computes it, from 0 to 255. A char is signed: from 128 on it
-- is negative.
abbrev char_is : (c byte : ℕ) → Bool
char_is c byte = ltb c 128 && c == byte

-- The loop that compares the first bytes of a block, from the last of them.
unfoldable pub is_preserved : ℕ → (p byte : ℕ) → Heap → Bool
is_preserved zero p byte h = true
is_preserved (suc j) p byte h = char_is (byte_at h (p + j)) byte && is_preserved j p byte h

-- The outcome of `eval_mm_valid`: 1, or 0 after one of its errors, with the request's number.
pub data Verdict : Type 0 where
  valid : Verdict
  init_failed : Verdict
  malloc_failed realloc_failed not_preserved not_freed : ℕ → Verdict
  bad_range : ℕ → Added → Verdict
  out_of_rounds : Verdict

-- The list that `ranges` points to, which is that of the allocator.
abbrev pub ranges_of : Package → List Range
ranges_of s = elim s.gl_ranges [ none ↦ [] | some ranges ↦ ranges ]

-- What follows an `add_range`: the byte pattern and the arrays, or its error.
abbrev pub accepted : ℕ → (index p size : ℕ) → Heap → Added → Replay → (Replay → Verdict) → Verdict
accepted i index p size h (added ranges) r next = next (
    remember index p size (record r {
      allocator = record { heap = fill p (index % 256) size h; gl_ranges = some ranges };
    }))
accepted i index p size h misaligned r next = bad_range i misaligned
accepted i index p size h outside r next = bad_range i outside
accepted i index p size h overlapping r next = bad_range i overlapping

-- The case ALLOC.
unfoldable pub valid_alloc : ℕ → ℕ → (index size : ℕ) → Replay → (Replay → Verdict) → Verdict
unfolding mm_malloc add_range
valid_alloc fuel i index size r next = elim (mm_malloc fuel size r.allocator.heap) [
  | block p h ↦ accepted i index p size h (add_range h (ranges_of r.allocator) p size) r next
  | null h ↦ malloc_failed i
  | no_fuel ↦ out_of_rounds
]

-- The case REALLOC.
unfoldable pub valid_realloc : ℕ → (index size : ℕ) → Replay → (Replay → Verdict) → Verdict
unfolding mm_realloc add_range remove_range is_preserved
valid_realloc i index size r next =
    let oldp : ℕ = r.blocks index in
    let newp : ℕ = mm_realloc oldp size in
    let h : Heap = r.allocator.heap in
    let oldsize : ℕ = if ltb size (r.block_sizes index) then size else r.block_sizes index in
    if newp == 0
    then realloc_failed i
    else accepted i index newp size h
        (add_range h (remove_range (ranges_of r.allocator) oldp) newp size) r
        (λ r'. if is_preserved oldsize newp (index % 256) h then next r' else not_preserved i)

-- The case FREE.
unfoldable pub valid_free : ℕ → ℕ → Replay → (Replay → Verdict) → Verdict
unfolding mm_free
valid_free fuel index r next = elim (mm_free fuel (r.blocks index) r.allocator) [
  | none ↦ out_of_rounds
  | some s ↦ next (record r { allocator = s })
]

-- The end of `eval_mm_valid`.
unfoldable pub valid_end : ℕ → ℕ → ℕ → Replay → Verdict
unfolding mm_exit
valid_end rounds fuel i r = elim (mm_exit rounds fuel r.allocator) [
  | none ↦ out_of_rounds
  | some s ↦ elim (ranges_of s) [ [] ↦ valid | ◌∷◌ p ps ↦ not_freed i ]
]

-- The loop over the requests from number `i` on.
unfoldable pub replay_valid : ℕ → ℕ → List Request → ℕ → Replay → Verdict
unfolding valid_alloc valid_realloc valid_free valid_end
replay_valid rounds fuel [] i r = valid_end rounds fuel i r
replay_valid rounds fuel (alloc index size ∷ ops) i r =
    valid_alloc fuel i index size r (replay_valid rounds fuel ops (i + 1))
replay_valid rounds fuel (realloc index size ∷ ops) i r =
    valid_realloc i index size r (replay_valid rounds fuel ops (i + 1))
replay_valid rounds fuel (free index ∷ ops) i r =
    valid_free fuel index r (replay_valid rounds fuel ops (i + 1))

unfoldable pub eval_mm_valid : ℕ → ℕ → List Request → Replay → Verdict
unfolding mem_reset_brk clear_ranges mm_init replay_valid
eval_mm_valid rounds fuel ops r =
    let s : Package = record r.allocator { heap = mem_reset_brk r.allocator.heap } in
    elim (mm_init fuel (some (clear_ranges (ranges_of r.allocator))) s) [
      | ready s' ↦ replay_valid rounds fuel ops 0 (record r { allocator = s' })
      | failed s' ↦ init_failed
      | unfinished ↦ out_of_rounds
    ]

-- ints as 32-bit patterns: `<` on them.
abbrev pub less_int : ℕ → ℕ → Bool
less_int a b = ltb (word (a + 2 ^ 31)) (word (b + 2 ^ 31))

-- The sizes that `eval_mm_util` counts.
pub record Usage : Type 0 where
  pub replayed : Replay
  pub total_size : ℕ
  pub max_total_size : ℕ

abbrev pub add_total : ℕ → Usage → Usage
add_total size u =
    let total : ℕ = word (u.total_size + size) in
    record u {
      total_size = total;
      max_total_size = if less_int u.max_total_size total then total else u.max_total_size;
    }

-- One request of `eval_mm_util`; `none` is the exit on an error, or fuel that ran out.
unfoldable pub util_request : ℕ → Request → Usage → Option Usage
unfolding mm_malloc mm_realloc mm_free
util_request fuel (alloc index size) u = elim (mm_malloc fuel size u.replayed.allocator.heap) [
  | block p h ↦
      let r : Replay = record (u.replayed) {
        allocator = record (u.replayed.allocator) { heap = h };
      } in
      some (add_total size (record u { replayed = remember index p size r }))
  | null h ↦ none
  | no_fuel ↦ none
]
util_request fuel (realloc index size) u =
    let oldsize : ℕ = u.replayed.block_sizes index in
    let newp : ℕ = mm_realloc (u.replayed.blocks index) size in
    if newp == 0
    then none
    else some (
        add_total (word (2 ^ 32 + size - oldsize))
          (record u { replayed = remember index newp size u.replayed }))
util_request fuel (free index) u =
    elim (mm_free fuel (u.replayed.blocks index) u.replayed.allocator) [
      | none ↦ none
      | some s ↦ some (record u {
        replayed = record (u.replayed) { allocator = s };
        total_size = word (u.total_size + 2 ^ 32 - u.replayed.block_sizes index);
      })
    ]

unfoldable pub replay_util : ℕ → List Request → Usage → Option Usage
unfolding util_request
replay_util fuel [] u = some u
replay_util fuel (op ∷ ops) u = elim (util_request fuel op u) [
  | none ↦ none
  | some u' ↦ replay_util fuel ops u'
]

-- `eval_mm_util`: the numerator and the denominator of the quotient that it returns.
unfoldable pub eval_mm_util : ℕ → List Request → Replay → Option (ℕ × ℕ)
unfolding mem_reset_brk mm_init replay_util
eval_mm_util fuel ops r =
    let s : Package = record (r.allocator) { heap = mem_reset_brk r.allocator.heap } in
    elim (mm_init fuel none s) [
      | ready s' ↦
          elim (replay_util fuel ops (record {
            replayed = record r { allocator = s' };
            total_size = 0;
            max_total_size = 0;
          })) [
            | none ↦ none
            | some u ↦ some (u.max_total_size, mem_heapsize u.replayed.allocator.heap)
          ]
      | failed s' ↦ none
      | unfinished ↦ none
    ]
