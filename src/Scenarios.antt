-- ===== src/Scenarios.antt =====
-- The modelled parts at concrete inputs: runs of the code, and its theorems where their
-- hypotheses hold.
mod Sync
mod Race
mod Election
mod Names
mod Tasks
mod Standbys
mod Cycle
mod Raft
mod Pass
mod Watchdog
mod Api
mod Restart
mod Rewind
