-- ===== src/Http.antt =====
-- pi-remote-coordinator/internal/http: the handlers of the WebSocket connections.
pub mod DaemonWs
pub mod AppFrames
pub mod ConnId
pub mod ClientWs
pub mod Endpoints
