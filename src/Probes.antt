-- ===== src/Probes.antt =====
-- mq-container-master/internal/probes: the state of the liveness and startup probes, the messages
-- that a probe sends, what the socket does with them, and the summary.
pub mod State
pub mod Execution
pub mod Socket
pub mod Timeline
pub mod Attempts
pub mod Dedup
pub mod Messages
mod Tests
