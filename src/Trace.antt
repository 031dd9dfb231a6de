-- ===== src/Trace.antt =====
-- The memory tracer of linklab: its list of blocks, and the functions that it puts before malloc,
-- calloc, realloc and free.
pub mod Blocks
pub mod Tracer
pub mod Part1
pub mod Part2
mod Tests
