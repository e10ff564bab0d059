-- ===== src/Sessions.antt =====
-- pi-remote-coordinator/internal/sessions: the coordinator's view of each Pi session, with its
-- history and its attached clients, and the registry of sessions.
pub mod Channels
pub mod Session
pub mod Delivery
pub mod Listens
pub mod Replayed
pub mod Registry
