-- ===== src/Runner.antt =====
-- tools/miniscram-gui/runner.go: the one subprocess of the window. `State` has the operations,
-- `Steps` their interleavings, on which `Balance` is, and `Window` the runner beside the queue. The
-- other modules are about the runs of the two.
pub mod State
pub mod Steps
pub mod Balance
pub mod Window
pub mod Stale
pub mod Owner
pub mod Waits
pub mod Calm
pub mod Frames
pub mod Starts
pub mod Sole
pub mod Stolen
