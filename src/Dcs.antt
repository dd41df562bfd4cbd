-- ===== src/Dcs.antt =====
-- .patroni/patroni/dcs/__init__.py: the data that the members of a cluster share through the
-- distributed configuration store (DCS).
pub mod SyncState
pub mod Cluster
pub mod Raft
