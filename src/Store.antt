-- ===== src/Store.antt =====
-- internal/store: the S3 object storage.
pub mod Execute
pub mod Delete
pub mod Multipart
mod Tests
