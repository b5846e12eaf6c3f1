-- ===== src/Runner/Stolen.antt =====
-- runner.go beside queue.go: a frame that takes the result of the worker's process.
use miniscram.Runner.Window.{Window}
