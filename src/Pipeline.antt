-- ===== src/Pipeline.antt =====
-- The audio stages of a lane: internal/core/pipeline, a child module for each of its files.
pub mod Units
pub mod Group
pub mod VoiceQueue
pub mod Track
pub mod Mixer
pub mod Pcm
