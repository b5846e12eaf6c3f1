-- ===== src/Cue.antt =====
-- cue.go: cue sheets.
pub mod Parse
pub mod State
pub mod Steps
pub mod Tracks
pub mod Resolve
