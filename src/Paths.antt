-- ===== src/Paths.antt =====
-- mq-container-master/internal/pathutils/clean.go: paths from parts that cannot leave the part before.
pub mod Clean
pub mod Below
mod Tests
