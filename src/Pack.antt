-- ===== src/Pack.antt =====
-- pack.go: the sync fields that `Pack` looks for in a scram.
pub mod Sync
pub mod Header
pub mod Scan
pub mod Reads
pub mod ScanAll
pub mod Offset
pub mod Sessions
pub mod Gaps
pub mod Moved
pub mod Run
pub mod Verified
