-- ===== src/Scenarios/Cycle.antt =====
-- A call of `process_sync_replication` at a concrete primary: `r1` takes the place of `b`.
use otus_hightload.Ha.SyncReplication.Round.{IsReady, IsWritable, with_later, sync_round_safe}
use otus_hightload.Collections.NameSet.{contains, add, add_all, empty, from_list, values}
use otus_hightload.Collections.Entries.{put, lookup}
use otus_hightload.Postgresql.NameTokens.{starts_ident, in_ident, begins}
use otus_hightload.Postgresql.StandbyNames.{sync_param, quote_ident, is_plain_ident}
use otus_hightload.Postgresql.StandbyNames.Scan.{reads_back}
use otus_hightload.Postgresql.SyncHandler.{current_state, new_handler}
use otus_hightload.Scenarios.Sync.{on, key, replaces, on_is_on, key-IsSafe}
use otus_hightload.Scenarios.Standbys.{picked_r1, postgres, cluster, row}
use otus_hightload.Prelude.{◌<◌, false, some, length, true, [], ◌∷◌, ◌≡◌, refl, all, arith}
use otus_hightload.Prelude.Text.{lower, lower_code, codes, text_eq, strip}
use otus_hightload.Dcs.SyncState.Write.{is_plain}
use otus_hightload.Collections.NameSet.Laws.{empty-IsValid, contains-empty}
use otus_hightload.Postgresql.Replicas.{Row}
use otus_hightload.Postgresql.SyncHandler.Tracking.{new_handler-IsTracked}
use otus_hightload.Ha.SyncReplication.{Inputs, process_sync_replication}
use otus_hightload.Ha.SyncReplication.Safety.{AlwaysSafe}
use otus_hightload.Ha.SyncReplication.Cycle.{with_state, IsLaterSound, sync_cycle_safe}

abbrev inputs : Inputs
inputs = record replaces { allow_later = empty }

plain_rows : all (λ (r : Row). is_plain r.application_name) (row ∷ []) ≡ true
unfolding all text_eq strip
plain_rows = refl

inputs-IsLaterSound : IsLaterSound (with_state inputs postgres cluster new_handler)
unfolding all values empty
inputs-IsLaterSound = record {
  later_valid = empty-IsValid;
  later_plain = refl;
  later_picked = λ w at. absurd (ground (arith, contains-empty w));
}

sync_cycle_safe_example :
    AlwaysSafe key
      (from_list (codes "b" ∷ []))
      (process_sync_replication (with_state inputs postgres cluster new_handler))
sync_cycle_safe_example =
    sync_cycle_safe inputs postgres cluster new_handler (from_list (codes "b" ∷ []))
      new_handler-IsTracked refl plain_rows inputs-IsLaterSound on_is_on key-IsSafe

postgres-IsReady : IsReady postgres new_handler
postgres-IsReady = record { tracked = new_handler-IsTracked; plain = plain_rows }

r1_no_star : contains (from_list (codes "r1" ∷ [])) (codes "*") ≡ false
unfolding contains from_list add_all add empty put lookup lower text_eq
r1_no_star = refl

r1_named : 0 < length (values (from_list (codes "r1" ∷ [])))
unfolding values from_list add_all add empty put
r1_named = omega arith

r1_read_back : all (λ (r : Row). reads_back r.application_name) (row ∷ []) ≡ true
unfolding all reads_back is_plain_ident starts_ident in_ident begins lower_code
r1_read_back = refl

r1_written : sync_param true (from_list (codes "r1" ∷ [])) ≡ some (codes "r1")
unfolding sync_param contains values from_list add_all add empty put lookup lower text_eq
    quote_ident is_plain_ident starts_ident in_ident
r1_written = refl

r1-IsWritable : IsWritable (current_state on postgres cluster new_handler).1 postgres
r1-IsWritable = record {
  no_star = rw picked_r1 r1_no_star;
  some_names = rw picked_r1 r1_named;
  read_back = r1_read_back;
}

sync_round_safe_example : AlwaysSafe key (from_list (codes "b" ∷ [])) (
    process_sync_replication
      (with_state (with_later replaces postgres cluster new_handler) postgres cluster new_handler))
sync_round_safe_example =
    sync_round_safe replaces postgres postgres cluster new_handler new_handler
      (from_list (codes "b" ∷ [])) refl on_is_on postgres-IsReady postgres-IsReady r1-IsWritable
      (rw picked_r1 r1_written) key-IsSafe
