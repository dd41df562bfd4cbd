-- ===== src/Ha/Cycle.antt =====
-- One pass of the high availability loop of .patroni/patroni/ha.py, as a procedure that calls the
-- store, PostgreSQL, the watchdog and the background executor, and that may be answered anything.
pub mod Calls
pub mod Run
pub mod Rules
pub mod Lock
pub mod Demote
pub mod Follow
pub mod Lead
pub mod Process
pub mod Recover
pub mod Busy
pub mod Start
pub mod Idle
pub mod Main
pub mod Plain
pub mod Promotion
pub mod Exposure
