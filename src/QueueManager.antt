-- ===== src/QueueManager.antt =====
-- mq-container-master/cmd/runmqserver/qmgr.go: the queue manager's directory and the commands that make, start and stop it.
pub mod Directory
pub mod Settings
pub mod Commands
pub mod Stanza
pub mod Creation
pub mod Distinct
mod Tests
