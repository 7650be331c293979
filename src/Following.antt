-- ===== src/Following.antt =====
-- mq-container-master/cmd/runmqserver/mirror.go: the goroutine that follows a log file across rotations.
pub mod System
pub mod Faithful
pub mod Turns
pub mod Happenings
pub mod InOrder
mod Tests
