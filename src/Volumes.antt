-- ===== src/Volumes.antt =====
-- mq-container-master/cmd/runmqserver/crtmqvol.go: the directories that are made and cleaned when the server starts.
pub mod Clean
pub mod Parents
pub mod Spared
mod Tests
