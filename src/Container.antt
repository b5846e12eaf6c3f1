-- ===== src/Container.antt =====
-- manifest.go: the container file.
pub mod File
pub mod Stored
pub mod Rounds
pub mod RoundTrip
pub mod Offsets
