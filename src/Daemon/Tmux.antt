-- ===== src/Daemon/Tmux.antt =====
-- pi-remote-daemon/internal/tmux/tmux.go: the control-mode client of tmux, from the lines that tmux
-- writes to the frames that go upstream. A line is its list of bytes.
pub mod Lines
pub mod Escapes
pub mod Reader
pub mod Panes
pub mod Targets
pub mod Spawns
pub mod Requests
pub mod Captures
