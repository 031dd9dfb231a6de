-- ===== src/Malloc/Memory.antt =====
-- malloclab/memlib.c, and the macros of malloclab/mm.c that read and write words of the heap.
use system_programming_lab.Base.{
  ℕ, ◌+◌, ◌-◌, ◌*◌, ◌/◌, ◌%◌, ◌^◌, Bool, ◌||◌, Option, none, some, ltb, ◌==◌, if◌then◌else◌,
}

-- The words of the heap by their addresses, the static variables of memlib.c, and `heap_listp` and
-- `block_list_start` of mm.c. Every access is to a 4-byte word at a multiple of 4; NULL is 0.
pub record Heap : Type 0 where
  pub mem : ℕ → ℕ
  pub mem_start_brk : ℕ
  pub mem_brk : ℕ
  pub mem_max_addr : ℕ
  pub heap_listp : ℕ
  pub block_list_start : ℕ

abbrev pub wsize : ℕ
wsize = 4

abbrev pub dsize : ℕ
dsize = 8

abbrev pub chunksize : ℕ
chunksize = 2 ^ 12

abbrev pub max_heap : ℕ
max_heap = 64 * 2 ^ 20

-- The bits of `size | 1` and of `size | 0`.
abbrev pub pack : ℕ → Bool → ℕ
pack size alloc = if alloc then size / 2 * 2 + 1 else size

abbrev pub write : (ℕ → ℕ) → ℕ → ℕ → ℕ → ℕ
write m p val q = if q == p then val else m q

abbrev pub get : Heap → ℕ → ℕ
get h p = h.mem p

abbrev pub put : ℕ → ℕ → Heap → Heap
put p val h = record h { mem = write h.mem p val }

-- `GET(p) & ~0x7` and `GET(p) & 0x1`
abbrev pub get_size : Heap → ℕ → ℕ
get_size h p = h.mem p - h.mem p % 8

abbrev pub get_alloc : Heap → ℕ → Bool
get_alloc h p = h.mem p % 2 == 1

abbrev pub hdrp : ℕ → ℕ
hdrp bp = bp - wsize

abbrev pub ftrp : Heap → ℕ → ℕ
ftrp h bp = bp + get_size h (hdrp bp) - dsize

abbrev pub prev_linknode_rp : ℕ → ℕ
prev_linknode_rp bp = bp

abbrev pub next_linknode_rp : ℕ → ℕ
next_linknode_rp bp = bp + wsize

abbrev pub next_blkp : Heap → ℕ → ℕ
next_blkp h bp = bp + get_size h (bp - wsize)

abbrev pub prev_blkp : Heap → ℕ → ℕ
prev_blkp h bp = bp - get_size h (bp - dsize)

-- `mem_init`, with the address that malloc returns; `none` is the exit on its failure.
unfoldable pub mem_init : Heap → ℕ → Option Heap
mem_init h base =
    if base == 0
    then none
    else some (record h {
      mem_start_brk = base;
      mem_max_addr = (base + max_heap) % 2 ^ 32;
      mem_brk = base;
    })

unfoldable pub mem_reset_brk : Heap → Heap
mem_reset_brk h = record h { mem_brk = h.mem_start_brk }

-- `mem_sbrk`, for the 32-bit pattern of `incr`: a pattern from 2 ^ 31 on is negative. The sum of the
-- pointer and `incr` wraps around. `none` is -1.
unfoldable pub mem_sbrk : ℕ → Heap → Option (ℕ × Heap)
mem_sbrk incr h =
    if ltb (2 ^ 31 - 1) incr || ltb h.mem_max_addr ((h.mem_brk + incr) % 2 ^ 32)
    then none
    else some (h.mem_brk, record h { mem_brk = (h.mem_brk + incr) % 2 ^ 32 })

abbrev pub mem_heap_lo : Heap → ℕ
mem_heap_lo h = h.mem_start_brk

abbrev pub mem_heap_hi : Heap → ℕ
mem_heap_hi h = h.mem_brk - 1

abbrev pub mem_heapsize : Heap → ℕ
mem_heapsize h = h.mem_brk - h.mem_start_brk
