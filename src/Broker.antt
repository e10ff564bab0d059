-- ===== src/Broker.antt =====
-- pi-remote-coordinator/internal/broker/broker.go: the bounded history of each session.
pub mod Ring
pub mod Lru
