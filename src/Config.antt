-- ===== src/Config.antt =====
-- internal/config: the settings.
pub mod Settings
pub mod Normalize
pub mod Validate
pub mod Load
pub mod Live
pub mod Secrets
mod Tests
