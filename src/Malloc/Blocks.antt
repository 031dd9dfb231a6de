-- ===== src/Malloc/Blocks.antt =====
-- `extend_heap`, `coalesce` and `place` of malloclab/mm.c. The fuel is that of the search in
-- `insert_free_block`. Addresses do not wrap around; sizes are 32-bit words.
use system_programming_lab.Base.{
  ℕ, ◌+◌, ◌-◌, ◌*◌, ◌%◌, ◌^◌, ◌&&◌, Bool, true, false, Option, none, some, leb, ◌==◌, if◌then◌else◌,
}
use system_programming_lab.Malloc.Memory.{
  Heap, dsize, pack, put, get_size, get_alloc, hdrp, ftrp, prev_linknode_rp, next_linknode_rp,
  next_blkp, prev_blkp, mem_sbrk,
}
use system_programming_lab.Malloc.FreeList.{insert_free_block, remove_free_block}

abbrev pub minfb_size : ℕ
minfb_size = 2

abbrev pub word : ℕ → ℕ
word n = n % 2 ^ 32

-- A block pointer with the heap, NULL with the heap, or no more fuel.
pub data Allocated : Type 0 where
  block : ℕ → Heap → Allocated
  null : Heap → Allocated
  no_fuel : Allocated

-- Cases 2 to 4 of `coalesce`, up to the insertion: the block pointer and the heap.
abbrev pub coalesce_next : ℕ → Heap → ℕ × Heap
coalesce_next bp h =
    let size : ℕ = word (get_size h (hdrp bp) + get_size h (hdrp (next_blkp h bp))) in
    let removed : Heap = remove_free_block (next_blkp h bp) h in
    let header : Heap = put (hdrp bp) (pack size false) removed in
    (bp, put (ftrp header bp) (pack size false) header)

abbrev pub coalesce_prev : ℕ → Heap → ℕ × Heap
coalesce_prev bp h =
    let size : ℕ = word (get_size h (hdrp bp) + get_size h (hdrp (prev_blkp h bp))) in
    let removed : Heap = remove_free_block (prev_blkp h bp) h in
    let footer : Heap = put (ftrp removed bp) (pack size false) removed in
    let header : Heap = put (hdrp (prev_blkp footer bp)) (pack size false) footer in
    (prev_blkp header bp, header)

abbrev pub coalesce_both : ℕ → Heap → ℕ × Heap
coalesce_both bp h =
    let size : ℕ = word (
      get_size h (hdrp bp)
      + get_size h (ftrp h (next_blkp h bp))
      + get_size h (hdrp (prev_blkp h bp))) in
    let prev_removed : Heap = remove_free_block (prev_blkp h bp) h in
    let removed : Heap = remove_free_block (next_blkp prev_removed bp) prev_removed in
    let footer : Heap = put (ftrp removed (next_blkp removed bp)) (pack size false) removed in
    let header : Heap = put (hdrp (prev_blkp footer bp)) (pack size false) footer in
    (prev_blkp header bp, header)

unfoldable pub coalesced : ℕ → Heap → ℕ × Heap
unfolding remove_free_block
coalesced bp h =
    let prev_alloc : Bool = get_alloc h (ftrp h (prev_blkp h bp)) in
    let next_alloc : Bool = get_alloc h (hdrp (next_blkp h bp)) in
    if prev_alloc && next_alloc
    then (bp, h)
    else if prev_alloc
    then coalesce_next bp h
    else if next_alloc
    then coalesce_prev bp h
    else coalesce_both bp h

unfoldable pub coalesce : ℕ → ℕ → Heap → Option (ℕ × Heap)
unfolding coalesced insert_free_block
coalesce fuel bp h =
    let (bp', h') = coalesced bp h in
    elim (insert_free_block fuel bp' h') [ none ↦ none | some linked ↦ some (bp', linked) ]

-- The words of a new free block: header, footer and links.
abbrev pub free_block : ℕ → ℕ → Heap → Heap
free_block bp size h =
    let header : Heap = put (hdrp bp) (pack size false) h in
    let footer : Heap = put (ftrp header bp) (pack size false) header in
    put (prev_linknode_rp bp) 0 (put (next_linknode_rp bp) 0 footer)

-- An even number of double words.
abbrev pub extend_size : ℕ → ℕ
extend_size dwords = if dwords % 2 == 0 then word (dwords * dsize) else word ((dwords + 1) * dsize)

unfoldable pub extend_heap : ℕ → ℕ → Heap → Allocated
unfolding mem_sbrk coalesce
extend_heap fuel dwords h = elim (mem_sbrk (extend_size dwords) h) [
  | none ↦ null h
  | some (bp, grown) ↦
      let freed : Heap = free_block bp (extend_size dwords) grown in
      let epilogue : Heap = put (hdrp (next_blkp freed bp)) (pack 0 true) freed in
      elim (coalesce fuel bp epilogue) [ none ↦ no_fuel | some (bp', h') ↦ block bp' h' ]
]

-- The header and the footer of an allocated block.
abbrev pub mark_allocated : ℕ → ℕ → Heap → Heap
mark_allocated bp size h =
    let header : Heap = put (hdrp bp) (pack size true) h in
    put (ftrp header bp) (pack size true) header

-- `csize - asize` is an unsigned subtraction.
unfoldable pub place : ℕ → ℕ → ℕ → Heap → Option Heap
unfolding coalesce remove_free_block
place fuel bp asize h =
    let csize : ℕ = get_size h (hdrp bp) in
    let removed : Heap = remove_free_block bp h in
    let remainder : ℕ = word (2 ^ 32 + csize - asize) in
    if leb (minfb_size * dsize) remainder
    then (let taken : Heap = mark_allocated bp asize removed in
        let rest : ℕ = next_blkp taken bp in
        elim (coalesce fuel rest (free_block rest remainder taken)) [
          | none ↦ none
          | some (bp', h') ↦ some h'
        ])
    else some (mark_allocated bp csize removed)
