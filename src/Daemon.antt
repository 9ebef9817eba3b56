-- ===== src/Daemon.antt =====
-- core/daemon.go and core/redis.go: messages that reach the running program, over the socket for other
-- processes of the host, and over redis for other hosts.
pub mod Ipc
pub mod Rpc
pub mod Services
pub mod Lists
pub mod Start
pub mod Targets
mod Tests
