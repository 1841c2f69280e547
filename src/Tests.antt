-- ===== src/Tests.antt =====
-- Runs of the theorems on small nodes, files and texts.
pub mod Fixtures
mod Nodes
mod Files
mod Wire
mod Maps
mod Process
mod Races
mod Runs
mod Serving
mod Access
mod Lines
mod Start
mod Certs
