-- ===== src/Checks.antt =====
-- mq-container-master/cmd/chkmqready, chkmqhealthy and chkmqstarted: the programs of the readiness, liveness and startup probes.
pub mod Programs
pub mod Codes
mod Tests
