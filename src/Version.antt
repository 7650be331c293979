-- ===== src/Version.antt =====
-- mq-container-master/internal/mqversion/mqversion.go: versions of the form V.R.M.F.
pub mod Vrmf
pub mod RoundTrip
pub mod Order
mod Tests
