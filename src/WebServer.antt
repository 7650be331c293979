-- ===== src/WebServer.antt =====
-- mq-container-master/cmd/runmqserver/webserver.go and post_init.go: the web server is configured and started.
pub mod Ltpa
pub mod Refreshed
pub mod Files
pub mod Linked
pub mod Configure
mod Tests
