-- ===== src/Queue.antt =====
-- tools/miniscram-gui/queue.go: the list of cue sheets to pack, and the worker that packs them.
pub mod Items
pub mod Add
pub mod Progress
pub mod Worker
pub mod Ids
pub mod Running
pub mod Holds
pub mod Invariant
pub mod Drain
pub mod Races
pub mod Settled
pub mod History
pub mod Paths
