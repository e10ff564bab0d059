-- ===== src/Ptymux.antt =====
-- pi-remote-daemon/internal/ptymux: what is done to the terminal bytes of a session on their way.
pub mod Sanitizer
