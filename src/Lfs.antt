-- ===== src/Lfs.antt =====
-- internal/lfs: the Git LFS client.
pub mod Probe
pub mod Select
pub mod Pointer
pub mod Batch
pub mod Download
pub mod Fetch
pub mod Sweep
mod Tests
