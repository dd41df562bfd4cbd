-- ===== src/Collections.antt =====
-- .patroni/patroni/collections.py: sets and dictionaries of names that ignore the case of ASCII
-- letters and remember the last spelling.
pub mod Entries
pub mod NameSet
pub mod NameDict
