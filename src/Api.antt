-- ===== src/Api.antt =====
-- .patroni/patroni/api.py: the REST API of a node. What the handlers read of the other objects is a
-- record, and what they answer is a status code.
pub mod Status
pub mod Health
pub mod Schedule
pub mod Failover
pub mod Request
pub mod Config
pub mod Restart
