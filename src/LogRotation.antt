-- ===== src/LogRotation.antt =====
-- mq-container-master/pkg/logrotation/logrotation.go: the log that is kept in several files.
pub mod Logger
pub mod Rotation
pub mod Appending
mod Tests
