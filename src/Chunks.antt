-- ===== src/Chunks.antt =====
-- chunks.go: the payloads of the container's chunks, and their frame.
pub mod Reader
pub mod Mfst
pub mod Trks
pub mod Sess
pub mod Crc
pub mod Frame
pub mod Hash
pub mod HashRecord
pub mod Digests
