-- ===== src/Tests.antt =====
-- Runs of the model, with the numbers of `Float.Fixed`, and the theorems at concrete states.
mod Data
mod Sessions
mod Stream
mod Wire
mod Roster
mod Running
mod Calibration
mod Consensus
mod Control
mod Node
mod Pc
