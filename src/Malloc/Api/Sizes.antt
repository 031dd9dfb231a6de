-- ===== src/Malloc/Api/Sizes.antt =====
-- The sizes that `mm_malloc` and `extend_heap` of malloclab/mm.c compute.
use system_programming_lab.Base.{ℕ, ◌+◌, ◌/◌, ◌%◌, ◌^◌, ◌≤◌, ◌<◌, ◌≡◌, arith}
use system_programming_lab.Malloc.Memory.{dsize}
use system_programming_lab.Malloc.Blocks.{extend_size}
use system_programming_lab.Malloc.Api.{adjusted, extendsize}

-- Where the sum does not wrap around, the block for a request has room for it, its header and its
-- footer, is a multiple of 8 bytes, has at least 16, and wastes less than 16.
pub adjusted-bounds :
    (size : ℕ)
    → 0 < size
    → size + 15 < 2 ^ 32
    → (size + 8 ≤ adjusted size)
      × (adjusted size < size + 16)
      × (adjusted size % 8 ≡ 0)
      × (16 ≤ adjusted size)
adjusted-bounds size pos lt = ground arith

-- For the last fifteen 32-bit sizes the sum wraps around, and a block of at most 8 bytes is looked for.
pub adjusted-wraps : (size : ℕ) → size < 2 ^ 32 → 2 ^ 32 ≤ size + 15 → adjusted size ≤ 8
adjusted-wraps size lt le = ground arith

extend_size-multiple :
    (a : ℕ)
    → a % 8 ≡ 0
    → a + 16 < 2 ^ 32
    → (a ≤ extend_size (extendsize a / dsize)) × (extend_size (extendsize a / dsize) % 16 ≡ 0)
extend_size-multiple a mult lt = ground arith

-- The block by which `mm_malloc` extends the heap has room for the block of the request and is a
-- multiple of 16 bytes: the request's size is positive, and 32 more fit in 32 bits.
pub extend_size-adjusted :
    (size : ℕ)
    → 0 < size
    → size + 32 < 2 ^ 32
    → (adjusted size ≤ extend_size (extendsize (adjusted size) / dsize))
      × (extend_size (extendsize (adjusted size) / dsize) % 16 ≡ 0)
extend_size-adjusted size pos lt =
    let (room, waste, mult, least) = adjusted-bounds size pos (omega arith) in
    extend_size-multiple (adjusted size) mult (omega (arith, waste, lt))
