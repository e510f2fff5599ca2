-- ===== src/Session.antt =====
-- internal/core/session: sessions, their options, their registry and the lanes that run them.
pub mod Model
pub mod Source
pub mod Flags
pub mod Validate
pub mod Status
pub mod Store
pub mod Lanes
mod Tests
