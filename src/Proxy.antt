-- ===== src/Proxy.antt =====
-- proxylab/proxy.c, a proxy that passes lines between its clients and their servers.
pub mod State
pub mod Scan
pub mod Format
pub mod Request
pub mod Threads
mod Tests
