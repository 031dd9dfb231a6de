-- ===== src/Timing.antt =====
-- malloclab/fcyc.c, which measures how long the driver's runs take.
pub mod Sampler
mod Tests
