-- ===== src/Ha.antt =====
-- .patroni/patroni/ha.py: the decisions of the high availability loop.
pub mod Node
pub mod Status
pub mod Race
pub mod Election
pub mod SyncReplication
pub mod Cycle
pub mod Restart
