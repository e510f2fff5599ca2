-- ===== src/Realtime.antt =====
-- The streaming lane: internal/core/realtime.
pub mod Words
pub mod Commit
pub mod Lane
