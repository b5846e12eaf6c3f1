-- ===== src/Unpack.antt =====
-- unpack.go: rebuilding a scram from its container and the bin files.
pub mod Files
pub mod Source
pub mod Run
pub mod Checks
pub mod Outputs
pub mod Single
