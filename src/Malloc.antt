-- ===== src/Malloc.antt =====
-- malloclab/mm.c and malloclab/memlib.c: the allocator and the memory under it.
pub mod Memory
pub mod FreeList
pub mod Fit
pub mod Blocks
pub mod Ranges
pub mod Api
pub mod Layout
pub mod Check
pub mod Refine
pub mod Driver
mod Tests
