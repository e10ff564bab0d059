-- ===== src/Tests.antt =====
-- Runs of the models at concrete inputs.
mod Apps
mod Panes
mod Settings
mod Links
pub mod Values
mod Daemons
mod Frames
mod Ingests
mod Rings
mod Streams
mod Balances
mod Pushes
mod Replays
