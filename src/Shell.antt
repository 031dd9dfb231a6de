-- ===== src/Shell.antt =====
-- shelllab/tsh.c, the tiny shell: its job list, its command line, its signals and its commands.
pub mod State
pub mod Jobs
pub mod Parse
pub mod Signals
pub mod Control
mod Tests
