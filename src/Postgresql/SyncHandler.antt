-- ===== src/Postgresql/SyncHandler.antt =====
-- `SyncHandler` of .patroni/patroni/postgresql/sync.py: which replicas the primary should wait
-- for, and which of them are synchronous already. What PostgreSQL answers is input.
pub mod Tracking
pub mod Candidates
pub mod Sources
pub mod Validity
use otus_hightload.Prelude.{
  ℕ, Bool, false, not, ◌&&◌, ◌||◌, Option, none, some, List, [], ◌∷◌, ◌++◌, if◌then◌else◌, select,
}
use otus_hightload.Prelude.Int.{ℤ, pos, ◌-ℤ◌, ltb_ℤ}
use otus_hightload.Prelude.Text.{Text, codes, text_eq}
use otus_hightload.Py.{Fields}
use otus_hightload.GlobalConfig.{synchronous_node_count, maximum_lag_on_syncnode}
use otus_hightload.Dcs.SyncState.{matches}
use otus_hightload.Dcs.Cluster.{Cluster}
use otus_hightload.Collections.NameSet.{NameSet, empty, add, contains, size}
use otus_hightload.Collections.NameDict.{NameDict, no_entries, setitem, has_key, delitem, keys}
use otus_hightload.Postgresql.StandbyNames.{Ssn, empty_ssn, parse_sync_standby_names}
use otus_hightload.Postgresql.Replicas.{Postgres, Replica, replica_list, max_lsn}

pub record Handler : Type 0 where
  pub synchronous_standby_names : Text
  pub ssn_data : Ssn
  pub primary_flush_lsn : ℤ
  pub ready_replicas : NameDict ℕ

unfoldable pub new_handler : Handler
new_handler = record {
  synchronous_standby_names = [];
  ssn_data = empty_ssn;
  primary_flush_lsn = pos 0;
  ready_replicas = no_entries;
}

unfoldable pub or_empty_ssn : Option Ssn → Ssn
or_empty_ssn none = empty_ssn
or_empty_ssn (some r) = r

-- `del d[key]` of a key that is there
del : Text → NameDict ℕ → NameDict ℕ
del key d = elim (delitem key d) [ none ↦ d | some e ↦ e ]

-- the loop that drops the connections whose names are no longer in the list
unfoldable pub keep_listed : NameSet → List Text → NameDict ℕ → NameDict ℕ
unfolding del
keep_listed members [] d = d
keep_listed members (key ∷ rest) d =
    keep_listed members rest (if contains members key then d else del key d)

unfoldable pub handle_names_change : Postgres → Handler → Handler
unfolding or_empty_ssn
handle_names_change pg h =
    if text_eq pg.synchronous_standby_names h.synchronous_standby_names
    then h
    else let ssn = or_empty_ssn (parse_sync_standby_names pg.synchronous_standby_names) in
      record {
        synchronous_standby_names = pg.synchronous_standby_names;
        ssn_data = ssn;
        primary_flush_lsn = pg.last_operation_before;
        ready_replicas = keep_listed ssn.members (keys h.ready_replicas) h.ready_replicas;
      }

-- the condition under which a replica is flagged
is_caught_up : Handler → Cluster → NameDict ℕ → Replica → Bool
is_caught_up h cluster ready r =
    not (has_key ready r.application_name)
    && contains h.ssn_data.members r.application_name
    && (matches cluster.sync r.application_name false
        || (text_eq r.sync_state (codes "sync") && not (ltb_ℤ r.lsn h.primary_flush_lsn)))

unfoldable pub flag_ready : Handler → Cluster → NameDict ℕ → List Replica → NameDict ℕ
unfolding is_caught_up
flag_ready h cluster ready [] = ready
flag_ready h cluster ready (r ∷ rest) =
    flag_ready h cluster
      (if is_caught_up h cluster ready r then setitem r.application_name r.pid ready else ready)
      rest

unfoldable pub process_replica_readiness : Cluster → List Replica → Handler → Handler
process_replica_readiness cluster replicas h = record h {
  ready_replicas = flag_ready h cluster h.ready_replicas replicas;
}

-- `sorted(replica_list, key=lambda x: x.nofailover)`, which keeps the order of equal keys
unfoldable pub promotable_first : List Replica → List Replica
promotable_first replicas =
    select (λ (r : Replica). not r.nofailover) replicas
    ++ select (λ (r : Replica). r.nofailover) replicas

is_near : ℤ → ℤ → Replica → Bool
is_near maxlag newest r = not (ltb_ℤ (pos 0) maxlag) || not (ltb_ℤ maxlag (newest -ℤ r.lsn))

-- What the loop of `current_state` goes by.
pub record Limits : Type 0 where
  pub node_count : ℤ
  pub maxlag : ℤ
  pub newest : ℤ
  pub ready : NameDict ℕ

unfoldable pub pick : Limits → NameSet → NameSet → List Replica → NameSet × NameSet
unfolding is_near
pick l candidates sync_nodes [] = (candidates, sync_nodes)
pick l candidates sync_nodes (r ∷ rest) =
    let near = is_near l.maxlag l.newest r in
    let synced =
      near && text_eq r.sync_state (codes "sync") && has_key l.ready r.application_name in
    let candidates' = if near then add r.application_name candidates else candidates in
    let sync_nodes' = if synced then add r.application_name sync_nodes else sync_nodes in
    let rest' = pick l candidates' sync_nodes' rest in
    if ltb_ℤ (pos (size candidates')) l.node_count then rest' else (candidates', sync_nodes')

limits : Fields → Postgres → List Replica → Handler → Limits
limits config pg replicas h = record {
  node_count = if pg.supports_multiple_sync then synchronous_node_count config else pos 1;
  maxlag = maximum_lag_on_syncnode config;
  newest = max_lsn pg replicas;
  ready = h.ready_replicas;
}

-- The handler afterwards, the candidates, and those that are synchronous.
unfoldable pub current_state : Fields → Postgres → Cluster → Handler → Handler × NameSet × NameSet
unfolding limits
current_state config pg cluster h =
    let replicas = replica_list pg cluster in
    let h' = process_replica_readiness cluster replicas (handle_names_change pg h) in
    let (candidates, sync_nodes) =
      pick (limits config pg replicas h') empty empty (promotable_first replicas) in
    (h', candidates, sync_nodes)
