-- ===== src/Tests.antt =====
-- A node with two blocks, the first with a transfer, and the theorems at concrete data.
pub mod Sample
mod Runs
mod Scans
mod Advances
mod TxStates
mod Stored
mod Tables
mod Events
pub mod Wholes
mod Entry
