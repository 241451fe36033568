-- ===== src/Paths.antt =====
-- internal/paths: storage keys derived from repository URLs and names.
pub mod Segment
pub mod Url
pub mod Parser
pub mod Keys
pub mod Archive
pub mod Redact
mod Tests
