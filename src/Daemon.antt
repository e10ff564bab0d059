-- ===== src/Daemon.antt =====
-- pi-remote-daemon/internal/session: the daemon's own registry of sessions.
pub mod Client
pub mod Registry
pub mod Multiplex
pub mod Socket
pub mod Coordinator
pub mod Tmux
pub mod Config
