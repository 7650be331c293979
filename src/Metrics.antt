-- ===== src/Metrics.antt =====
-- mq-container-master/internal/metrics: the metrics that the queue manager publishes.
pub mod Update
pub mod Discovery
mod Tests
