-- ===== src/Keystore.antt =====
-- mq-container-master/internal/keystore/keystore.go: the key databases, which MQ's commands make and change.
pub mod Commands
pub mod Listing
pub mod Created
mod Tests
