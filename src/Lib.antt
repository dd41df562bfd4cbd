-- ===== src/Lib.antt =====
-- A verification library for Patroni, the PostgreSQL high-availability agent of .patroni/patroni:
-- the decisions that keep a cluster from losing data when its leader fails. Patroni runs beside each
-- PostgreSQL; the agents share the keys of a distributed store (DCS): /leader, /sync, /failover,
-- /status, /history, the dynamic configuration and one key per member.
--
-- The parts and their files:
--   Prelude, Prelude/*: lists, integers, texts as lists of code points, tests. Case folding is that
--     of ASCII, stripping that of spaces and control whitespace.
--   Py: the dynamic values that JSON, YAML and the tags hold.
--   Utils/*: parse_bool, strtol, strtod, parse_int with its units, deep_compare and patch_config of
--     utils.py. A float is kept as an exact decimal, rounded half to even, and a unit as an exact
--     ratio, where the code has a double. repr prints characters beyond ASCII as they are.
--   Tags: the properties of tags.py. Tags that are no dictionary are read as empty.
--   GlobalConfig: the properties of global_config.py, over the configuration as an argument.
--   Dcs/SyncState, Dcs/Cluster: the keys of dcs/__init__.py as records. Versions are opaque numbers;
--     the lines of the history key that are no lists of a number have no timeline.
--   Collections/*: CaseInsensitiveSet and CaseInsensitiveDict of collections.py over an association
--     list in the order of first insertion, which is the order of a Python dictionary.
--   AsyncExecutor, AsyncExecutor/*: async_executor.py. Each block under the thread lock is one step;
--     Step lists the interleavings of callers and threads. A step is calm if it begins no
--     cancellation before the thread has made its test and schedules nothing while one waits.
--   Postgresql/NameTokens, Postgresql/StandbyNames: the reading and writing of
--     synchronous_standby_names of postgresql/sync.py. The expression is matched at each character in
--     turn, with a count of the characters that the last match still covers.
--   Postgresql/Replicas, Postgresql/SyncHandler: _ReplicaList and SyncHandler.current_state of
--     postgresql/sync.py. A call sees one snapshot of PostgreSQL, and the position at which it saw
--     the names change.
--   Ha/Node: what the Ha object of ha.py knows in one cycle. The REST API of the other members is a
--     function from a member into its JSON answer, or none.
--   Ha/Status, Ha/Race, Ha/Election: _MemberStatus, _is_healthiest_node, get_failover_candidates,
--     is_failover_possible, manual_failover_process_no_leader and is_healthiest_node of ha.py.
--   Ha/SyncReplication: process_sync_replication of ha.py, as the list of the writes that it makes,
--     in their order. Which writes to the DCS succeed is input. Cycle and Round put current_state of
--     postgresql/sync.py in the place of its sets.
--   Ha/Cycle, Ha/Cycle/*: the HA loop of ha.py, from run_cycle down. A method is a procedure over calls
--     of the other objects (Calls), whose replies, exceptions included, are left open; Run says what
--     holds in every run. Lock is the leader lock, Demote the demotion, Follow the standby,
--     Lead enforce_primary_role, Process the passes over healthy and unhealthy clusters, Recover the
--     ones over a PostgreSQL that is down, Busy the ones over one that starts or is busy, Start the
--     bootstrap, Idle the end of a pass, Main _run_cycle and the errors of the store. Rules, Plain,
--     Promotion and Exposure hold proofs: a monitor is a state that each call changes. A message is
--     its text before values are formatted into it, the old name master of a role is read as
--     primary, the requests to the coordinator of Citus are left out. The leader race is one call for
--     what it observes, and one question whether PostgreSQL is a primary.
--   Dcs/Raft, Dcs/Raft/*: KVStoreTTL and the writes of Raft of dcs/raft.py. The log of pysyncobj is a
--     list of commands, its raftLastApplied an argument, its answers are inputs; a pass over the
--     expired keys reads the clock once; a retried call is the list of its attempts.
--   Watchdog, Watchdog/Activation: the configuration and the activation of the watchdog, of
--     watchdog/base.py. A device is a state with the operations of WatchdogBase, which are parameters.
--   Watchdog/Reload, Watchdog/Reload/*: get_impl, __init__, reload_config and keepalive of
--     watchdog/base.py. A device that is turned off is not looked at again.
--   Ha/Restart: restart_matches, restart and the future restart of ha.py; what the other objects
--     answer is the record Instance.
--   Postgresql/Misc, Postgresql/History: the versions, the positions and the history in text of
--     postgresql/misc.py.
--   Postgresql/Rewind, Postgresql/Rewind/*: the state of rewind.py, whether a rewind is needed and
--     its execution. The outputs of pg_controldata and pg_waldump are functions into texts.
--   Api/Status, Api/Health, Api/Health/*: get_postgresql_status, do_GET, the liveness and the readiness
--     of api.py. The row of the status query is a record, or none if the query fails.
--   Api/Schedule, Api/Failover, Api/Failover/*: parse_schedule, do_POST_failover and what it calls, and
--     do_DELETE_switchover. dateutil is a function from a text into a moment; the views of the
--     cluster while the outcome is polled are a list with one entry a round.
--   Api/Request, Api/Config, Api/Config/*: the checks of access and of the body, do_PATCH_config and
--     do_PUT_config. The comparison of certificates, addresses and passwords is input.
--   Api/Restart, Api/Restart/*: do_POST_restart, do_DELETE_restart and do_POST_reinitialize. In all of
--     Api a message is its text before values are formatted into it, and a name that a request
--     leaves out is the empty text; a name that is no text is a text that no name can be.
--   Scenarios/*: the theorems at concrete clusters.
--
-- Loops are structural recursion over lists. Fuel is used for printing and reading digits only, where
-- the number plus one, or the length of the text, is enough. Waits and log messages are left out. The
-- answers of the DCS, of PostgreSQL and of the REST API are inputs, and what the theorems need of them
-- is a hypothesis: IsSound says of the sets that process_sync_replication is given that a promotable
-- standby is one that was picked, which Cycle and Round take from the handler.
--
-- Not modelled: of the HA loop reinitialize, the run of a scheduled restart, while_not_sync_standby,
-- update_cluster_history, the data of touch_member, the failsafe topology and shutdown, which are
-- calls like those of other objects where a pass uses them; of the cluster view the reading of the
-- keys, slots and the choice of a member to clone; of Raft the loading of the cluster, the network and
-- the journal; of utils.py parse_real, compare_values and the loops that retry; of the REST API the
-- sockets, the certificates, and the endpoints for metrics, history, cluster, failsafe, termination
-- and Citus; of rewind.py the archiving, the call of pg_rewind and the checkpoint after a promotion;
-- the clients of the other stores, the rest of the control of PostgreSQL, the command line,
-- configuration files, Citus, the ioctl calls of the watchdog device; and the Rust services of the
-- repository (backend, dialogs, unread).
pub mod Prelude
pub mod Py
pub mod Utils
pub mod Watchdog
pub mod Api
pub mod Tags
pub mod Dcs
pub mod GlobalConfig
pub mod Collections
pub mod AsyncExecutor
pub mod Postgresql
pub mod Ha
mod Scenarios
