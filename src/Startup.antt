-- ===== src/Startup.antt =====
-- What the container does before it creates the queue manager: the license, the name, the FIPS mode, the readiness
-- files, Native HA and the passwords.
pub mod Environment
pub mod License
pub mod Name
pub mod Fips
pub mod Ready
pub mod HighAvailability
pub mod SecurityUtility
pub mod Passwords
pub mod Tracing
mod Tests
