-- ===== src/Redact.antt =====
-- mq-container-master/internal/mqscredact/mqscredact.go: the values of sensitive parameters in MQSC
-- text are replaced. The reader is the text that is left to read. It reads from a string, so its
-- only error is the end of the text.
pub mod Parameter
pub mod Loop
pub mod Total
pub mod Segments
pub mod Fuel
pub mod Secrecy
mod Tests
