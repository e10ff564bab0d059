-- ===== src/Machines.antt =====
-- pi-remote-coordinator/internal/machines: the registry of connected daemons, and the ingestor that
-- takes their frames into the registries.
pub mod Registry
pub mod Frames
pub mod Ingest
