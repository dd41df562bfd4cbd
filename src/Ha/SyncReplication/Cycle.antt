-- ===== src/Ha/SyncReplication/Cycle.antt =====
-- `process_sync_replication` of ha.py with the `current_state` of sync.py that it calls.
use otus_hightload.Prelude.{true, ◌≡◌, all}
use otus_hightload.Prelude.Text.{Text, non_empty}
use otus_hightload.Dcs.SyncState.Write.{is_plain}
use otus_hightload.Dcs.Cluster.{Cluster}
use otus_hightload.Collections.NameSet.{NameSet, contains, values}
use otus_hightload.Collections.NameSet.Laws.{IsValid}
use otus_hightload.GlobalConfig.{is_synchronous_mode}
use otus_hightload.Postgresql.Replicas.{Postgres, Row}
use otus_hightload.Postgresql.SyncHandler.{Handler, current_state}
use otus_hightload.Postgresql.SyncHandler.Tracking.{IsTracked}
use otus_hightload.Postgresql.SyncHandler.Candidates.{sync_nodes_awaited}
use otus_hightload.Postgresql.SyncHandler.Validity.{Holds-current_state}
use otus_hightload.Ha.SyncReplication.{Inputs, process_sync_replication}
use otus_hightload.Ha.SyncReplication.Safety.{IsSafe, AlwaysSafe}
use otus_hightload.Ha.SyncReplication.Invariant.{sync_key_follows_assignment}

-- the inputs of a call whose first `current_state` is this one
abbrev pub with_state : Inputs → Postgres → Cluster → Handler → Inputs
with_state i pg cluster h = record i {
  picked = (current_state i.config pg cluster h).1;
  allow_promote = (current_state i.config pg cluster h).2;
}

-- What the second `current_state`, after the wait, may report as synchronous: plain names that
-- were picked.
pub record IsLaterSound (i : Inputs) : Type 0 where
  pub later_valid : IsValid i.allow_later
  pub later_plain : all is_plain (values i.allow_later) ≡ true
  pub later_picked : (w : Text) → contains i.allow_later w ≡ true → contains i.picked w ≡ true

-- While synchronous mode is on, a call whose first `current_state` comes from the handler keeps
-- every standby of the `/sync` key assigned before, between and after all steps, if it was so at the
-- start: provided that the node has a name, what the handler holds is right, the application names
-- of the replicas are plain, and the second `current_state` reports plain names that were picked.
pub sync_cycle_safe :
    (i : Inputs) (pg : Postgres) (cluster : Cluster) (h : Handler) (names : NameSet)
    → IsTracked h
    → non_empty i.name ≡ true
    → all (λ (row : Row). is_plain row.application_name) pg.stat_replication ≡ true
    → IsLaterSound (with_state i pg cluster h)
    → is_synchronous_mode i.config ≡ true
    → IsSafe i.sync names
    → AlwaysSafe i.sync names (process_sync_replication (with_state i pg cluster h))
sync_cycle_safe i pg cluster h names tracked named plain later on safe =
    let held = Holds-current_state is_plain i.config pg cluster h plain in
    sync_key_follows_assignment (with_state i pg cluster h) names
      (record {
        named = named;
        picked_valid = held.0.0;
        allow_valid = held.1.0;
        later_valid = later.later_valid;
        allow_plain = held.1.1;
        later_plain = later.later_plain;
        allow_picked = λ w at. (sync_nodes_awaited i.config pg cluster h tracked w at).0;
        later_picked = later.later_picked;
      })
      on safe
