-- ===== src/Ha/SyncReplication/Round.antt =====
-- `process_sync_replication` of ha.py with both calls of `current_state` of sync.py, where
-- PostgreSQL has between them taken over the names that were assigned.
use otus_hightload.Prelude.{◌<◌, true, false, Option, some, ◌≡◌, sym, ◌∙◌, ap, all, length}
use otus_hightload.Prelude.Text.{Text, codes, non_empty}
use otus_hightload.Dcs.SyncState.Write.{is_plain}
use otus_hightload.Dcs.Cluster.{Cluster}
use otus_hightload.Collections.NameSet.{NameSet, contains, values}
use otus_hightload.GlobalConfig.{is_synchronous_mode}
use otus_hightload.Postgresql.StandbyNames.{Ssn, sync_param, parse_sync_standby_names}
use otus_hightload.Postgresql.StandbyNames.Scan.{reads_back}
use otus_hightload.Postgresql.StandbyNames.RoundTrip.{parse-sync_param}
use otus_hightload.Postgresql.Replicas.{Postgres, Row}
use otus_hightload.Postgresql.SyncHandler.{Handler, current_state, or_empty_ssn}
use otus_hightload.Postgresql.SyncHandler.Tracking.{IsTracked}
use otus_hightload.Postgresql.SyncHandler.Candidates.{sync_nodes_awaited}
use otus_hightload.Postgresql.SyncHandler.Validity.{Holds-current_state}
use otus_hightload.Ha.SyncReplication.{Inputs, process_sync_replication}
use otus_hightload.Ha.SyncReplication.Safety.{IsSafe, AlwaysSafe}
use otus_hightload.Ha.SyncReplication.Cycle.{with_state, IsLaterSound, sync_cycle_safe}

-- the inputs of a call whose second `current_state` is this one
abbrev pub with_later : Inputs → Postgres → Cluster → Handler → Inputs
with_later i pg cluster h = record i { allow_later = (current_state i.config pg cluster h).2 }

some_text : Option Text → Text → Text
some_text (some s) t = s
some_text _ t = t

-- What the handler needs at a call: what it holds is right, and the replicas have plain names.
pub record IsReady (pg : Postgres) (h : Handler) : Type 0 where
  pub tracked : IsTracked h
  pub plain : all (λ (row : Row). is_plain row.application_name) pg.stat_replication ≡ true

-- The names of a first call can be written for PostgreSQL and read back.
pub record IsWritable (candidates : NameSet) (pg : Postgres) : Type 0 where
  pub no_star : contains candidates (codes "*") ≡ false
  pub some_names : 0 < length (values candidates)
  pub read_back : all (λ (row : Row). reads_back row.application_name) pg.stat_replication ≡ true

module _ (i : Inputs) (pg later_pg : Postgres) (cluster : Cluster) (h later_h : Handler) where
  later_sound :
      IsReady later_pg later_h
      → IsReady pg h
      → IsWritable (current_state i.config pg cluster h).1 pg
      → sync_param true (current_state i.config pg cluster h).1
        ≡ some later_pg.synchronous_standby_names
      → IsLaterSound (with_state (with_later i later_pg cluster later_h) pg cluster h)
  unfolding some_text or_empty_ssn
  later_sound later ready writable written =
      let held = Holds-current_state is_plain i.config later_pg cluster later_h later.plain in
      let names = Holds-current_state reads_back i.config pg cluster h writable.read_back in
      let (param, r, e, parsed, _, same) =
        parse-sync_param (current_state i.config pg cluster h).1 names.0.0 writable.no_star
          names.0.1 writable.some_names in
      let is_param : later_pg.synchronous_standby_names ≡ param =
        ap (λ o. some_text o param) (sym written ∙ e) in
      let known : or_empty_ssn (parse_sync_standby_names later_pg.synchronous_standby_names) ≡ r =
        ap (λ s. or_empty_ssn (parse_sync_standby_names s)) is_param ∙ ap or_empty_ssn parsed in
      record {
        later_valid = held.1.0;
        later_plain = held.1.1;
        later_picked = λ w at.
            let awaited =
              (sync_nodes_awaited i.config later_pg cluster later_h later.tracked w at).1 in
            sym (same w) ∙ sym (ap (λ (s : Ssn). contains s.members w) known) ∙ awaited;
      }

-- While synchronous mode is on, a call that picks at least one standby keeps every standby of the
-- `/sync` key assigned before, between and after all steps, if it was so at the start: provided that
-- PostgreSQL, which supports several, has by the second `current_state` taken over the names that
-- were picked, that the node has a name, that the application names are plain and none is an
-- identifier that begins with a keyword, that `*` is not picked, and that what the handler holds is
-- right before both calls.
pub sync_round_safe :
    (i : Inputs) (pg later_pg : Postgres) (cluster : Cluster) (h later_h : Handler)
    (names : NameSet)
    → non_empty i.name ≡ true
    → is_synchronous_mode i.config ≡ true
    → IsReady pg h
    → IsReady later_pg later_h
    → IsWritable (current_state i.config pg cluster h).1 pg
    → sync_param true (current_state i.config pg cluster h).1
      ≡ some later_pg.synchronous_standby_names
    → IsSafe i.sync names
    → AlwaysSafe i.sync names
        (process_sync_replication (with_state (with_later i later_pg cluster later_h) pg cluster h))
sync_round_safe i pg later_pg cluster h later_h names named on ready later writable written safe =
    sync_cycle_safe (with_later i later_pg cluster later_h) pg cluster h names ready.tracked named
      ready.plain (later_sound i pg later_pg cluster h later_h later ready writable written) on safe
