-- ===== src/Tests.antt =====
-- Runs at fixed inputs, and the theorems applied to concrete ones.
mod Wire
mod Connections
mod Calls
mod Meeting
mod Tunnels
mod Lifetimes
mod Windows
mod Unix
mod Accepts
mod Proposals
mod CInterface
