-- ===== src/Sensitive.antt =====
-- mq-container-master/internal/sensitive/sensitive.go: buffers of secrets, zeroed when they are given up.
pub mod Buffer
pub mod Zeroed
mod Tests
