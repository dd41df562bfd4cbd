-- ===== src/Postgresql.antt =====
-- The parts of .patroni/patroni/postgresql that choose the synchronous standbys.
pub mod NameTokens
pub mod StandbyNames
pub mod Replicas
pub mod SyncHandler
pub mod Misc
pub mod History
pub mod Rewind
