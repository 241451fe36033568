-- ===== src/Sync.antt =====
-- internal/backup/sync.go and mirror.go: the backup pass over the repositories.
pub mod Parallel
pub mod Plan
pub mod Run
pub mod Jobs
mod Tests
