-- ===== src/Server.antt =====
-- mq-container-master/cmd/runmqserver/main.go: the main program of the container, as PID 1.
pub mod Calls
pub mod Steps
pub mod Program
pub mod Runs
pub mod Gates
pub mod Order
mod Tests
