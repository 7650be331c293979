-- ===== src/Tls.antt =====
-- mq-container-master/internal/tls: the key stores made from the directories of keys and certificates.
pub mod Store
pub mod Blocks
pub mod Certificates
pub mod Keys
pub mod Configure
pub mod Distinct
pub mod Safely
pub mod Trusted
pub mod Labelled
pub mod Accepted
pub mod Made
pub mod Configured
pub mod Keyless
pub mod Password
pub mod InitialKey
pub mod Web
mod Tests
