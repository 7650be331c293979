-- ===== src/Signals.antt =====
-- mq-container-master/cmd/runmqserver/signals.go: the goroutine that handles signals, beside the main thread.
pub mod System
pub mod Safety
pub mod Ending
mod Tests
