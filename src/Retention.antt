-- ===== src/Retention.antt =====
-- internal/backup/retention.go: which snapshots and which other objects one retention run deletes.
-- `sort` stands for `sort.Slice`, whose order of equal timestamps is not specified. Go walks a map in
-- any order; here the groups stand in the order in which their first archive was listed.
pub mod Group
pub mod Orphan
pub mod Run
mod Tests
