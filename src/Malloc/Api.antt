-- ===== src/Malloc/Api.antt =====
-- The interface of malloclab/mm.c: `mm_init`, `mm_malloc`, `mm_free`, `mm_realloc` and `mm_exit`.
pub mod Sizes
use system_programming_lab.Base.{
  ℕ, zero, suc, ◌+◌, ◌-◌, ◌*◌, ◌/◌, ◌%◌, ◌^◌, Bool, true, false, Option, none, some, List, ltb, leb,
  ◌==◌, if◌then◌else◌,
}
use mathlib.Core.Option
use system_programming_lab.Malloc.Memory.{
  Heap, wsize, dsize, chunksize, pack, put, get_size, get_alloc, hdrp, ftrp, next_blkp, mem_sbrk,
  mem_heap_hi,
}
use system_programming_lab.Malloc.Fit.{Found, found, missing, out_of_fuel, find_fit}
use system_programming_lab.Malloc.Blocks.{
  word, Allocated, block, null, no_fuel, free_block, coalesce, extend_heap, place,
}
use system_programming_lab.Malloc.Ranges.{Range, remove_range}

-- The heap, and the range list of the driver if `gl_ranges` points to one.
pub record Package : Type 0 where
  pub heap : Heap
  pub gl_ranges : Option (List Range)

-- The words that `mm_init` writes: ten empty roots, the padding, the prologue and the epilogue.
abbrev pub first_words : ℕ → Heap → Heap
first_words p h =
    let zeros : Heap = put (p + 10 * wsize) 0 (
      put (p + 9 * wsize) 0 (
        put (p + 8 * wsize) 0 (
          put (p + 7 * wsize) 0 (
            put (p + 6 * wsize) 0 (
              put (p + 5 * wsize) 0 (
                put (p + 4 * wsize) 0 (
                  put (p + 3 * wsize) 0
                    (put (p + 2 * wsize) 0 (put (p + 1 * wsize) 0 (put p 0 h)))))))))) in
    put (p + 13 * wsize) (pack 0 true)
      (put (p + 12 * wsize) (pack dsize true) (put (p + 11 * wsize) (pack dsize true) zeros))

-- The result of `mm_init`, 0 or -1. Where mem_sbrk fails, `heap_listp` is its -1.
pub data Initialised : Type 0 where
  ready : Package → Initialised
  failed : Package → Initialised
  unfinished : Initialised

unfoldable pub mm_init : ℕ → Option (List Range) → Package → Initialised
unfolding extend_heap mem_sbrk
mm_init fuel ranges s = elim (mem_sbrk (14 * wsize) s.heap) [
  | none ↦ failed (record s { heap = record (s.heap) { heap_listp = 2 ^ 32 - 1 } })
  | some (p, grown) ↦
      let h : Heap = record (first_words p grown) {
        block_list_start = p;
        heap_listp = p + 12 * wsize;
      } in
      elim (extend_heap fuel (chunksize / dsize) h) [
        | block bp h' ↦ ready (record { heap = h'; gl_ranges = ranges })
        | null h' ↦ failed (record s { heap = h' })
        | no_fuel ↦ unfinished
      ]
]

-- The size of the block for a request, with the 32-bit wrap-around of the sum.
abbrev pub adjusted : ℕ → ℕ
adjusted size =
    if leb size dsize then 2 * dsize else dsize * (word (size + dsize + (dsize - 1)) / dsize)

-- `MAX(asize, CHUNKSIZE)`
abbrev pub extendsize : ℕ → ℕ
extendsize asize = if ltb chunksize asize then asize else chunksize

-- `place`, and the block pointer.
abbrev pub placed : ℕ → ℕ → ℕ → Heap → Allocated
placed fuel bp asize h = elim (place fuel bp asize h) [ none ↦ no_fuel | some h' ↦ block bp h' ]

unfoldable pub mm_malloc : ℕ → ℕ → Heap → Allocated
unfolding find_fit place extend_heap
mm_malloc fuel size h = if size == 0 then null h else elim (find_fit fuel (adjusted size) h) [
  | found bp ↦ placed fuel bp (adjusted size) h
  | missing ↦ elim (extend_heap fuel (extendsize (adjusted size) / dsize) h) [
    | block bp h' ↦ placed fuel bp (adjusted size) h'
    | null h' ↦ null h'
    | no_fuel ↦ no_fuel
  ]
  | out_of_fuel ↦ no_fuel
]

-- `none` when the search in `insert_free_block` ran out of fuel.
unfoldable pub mm_free : ℕ → ℕ → Package → Option Package
unfolding coalesce remove_range
mm_free fuel bp s =
    if bp == 0
    then some s
    else elim (coalesce fuel bp (free_block bp (get_size s.heap (hdrp bp)) s.heap)) [
      | none ↦ none
      | some (bp', h') ↦ some (record {
        heap = h';
        gl_ranges = Option.map (λ ranges. remove_range ranges bp) s.gl_ranges;
      })
    ]

unfoldable pub mm_realloc : ℕ → ℕ → ℕ
mm_realloc ptr t = 0

-- The loop of `mm_exit` from the block `p`, to `hi`, the heap's last byte at its start.
unfoldable pub exit_loop : ℕ → ℕ → (hi p : ℕ) → Package → Option Package
unfolding mm_free
exit_loop zero fuel hi p s = none
exit_loop (suc k) fuel hi p s =
    elim (if get_alloc s.heap (hdrp p) then mm_free fuel p s else some s) [
      | none ↦ none
      | some s' ↦
          if ltb hi (next_blkp s'.heap p)
          then some s'
          else exit_loop k fuel hi (next_blkp s'.heap p) s'
    ]

unfoldable pub mm_exit : ℕ → ℕ → Package → Option Package
unfolding exit_loop
mm_exit blocks fuel s = exit_loop blocks fuel (mem_heap_hi s.heap) (s.heap.heap_listp + 8) s
