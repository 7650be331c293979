-- ===== src/Logging.antt =====
-- mq-container-master/cmd/runmqserver/logging.go: what is logged, from which sources, and in which format.
pub mod Sources
pub mod Mirror
pub mod Chosen
mod Tests
