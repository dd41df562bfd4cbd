-- ===== src/Scenarios/Standbys.antt =====
-- The choice of synchronous standbys at concrete inputs: a primary with the replica `r1`.
use otus_hightload.Postgresql.SyncHandler.Sources.{IsFrom, candidate_source}
use otus_hightload.Postgresql.Replicas.{
  Replica, members_by_name, Postgres, Row, replica_list, sort_replicas, sort_column, max_lsn,
}
use otus_hightload.Scenarios.Sync.{on}
use otus_hightload.Prelude.{
  ◌≤◌, ◌<◌, true, false, none, some, [], ◌∷◌, ◌++◌, ◌≡◌, ◌⊎◌, refl, all, any, select, length, arith,
}
use otus_hightload.Prelude.Int.{pos, ◌-ℤ◌, ◌≤ℤ◌}
use otus_hightload.Prelude.Text.{Text, codes, text_eq, lower, is_space, lower_code}
use otus_hightload.Py.{str, field, end, get}
use otus_hightload.Utils.{parse_bool, parse_int}
use otus_hightload.Tags.{nofailover, nosync}
use otus_hightload.GlobalConfig.{
  get_int, check_mode, synchronous_node_count, min_synchronous_nodes, maximum_lag_on_syncnode,
  is_synchronous_mode_strict,
}
use otus_hightload.Dcs.SyncState.{str_to_list, matches, text_lt, is_empty}
use otus_hightload.Dcs.Cluster.{Cluster, member_tags, is_running, member_state}
use otus_hightload.Collections.Entries.{lookup, put}
use otus_hightload.Collections.NameSet.{
  NameSet, empty, add, add_all, contains, from_list, values, size,
}
use otus_hightload.Collections.NameSet.Laws.{from_list-IsValid}
use otus_hightload.Collections.NameDict.{no_entries, from_entries, setitem, getitem, has_key, keys}
use otus_hightload.Postgresql.NameTokens.{
  in_ident, starts_ident, begins, tokens, scan, match_at, span,
}
use otus_hightload.Postgresql.StandbyNames.{
  Ssn, sync_param, parse_sync_standby_names, quote_ident, is_plain_ident, has_kind, before_parenend,
  synclist, read, empty_ssn,
}
use otus_hightload.Postgresql.StandbyNames.Scan.{reads_back}
use otus_hightload.Postgresql.StandbyNames.RoundTrip.{parse-sync_param}
use otus_hightload.Postgresql.StandbyNames.Keywords.{keyword_prefix_unreadable}
use otus_hightload.Postgresql.SyncHandler.{
  new_handler, current_state, or_empty_ssn, handle_names_change, keep_listed,
  process_replica_readiness, flag_ready, promotable_first, pick,
}
use otus_hightload.Postgresql.SyncHandler.Tracking.{new_handler-IsTracked}
use otus_hightload.Postgresql.SyncHandler.Candidates.{sync_nodes_awaited, candidates_bounded}

abbrev standbys : NameSet
standbys = from_list (codes "r1" ∷ codes "r-2" ∷ [])

no_star : contains standbys (codes "*") ≡ false
unfolding contains from_list add_all add empty put lookup lower text_eq
no_star = refl

all_read_back : all reads_back (values standbys) ≡ true
unfolding all reads_back values from_list add_all add empty put lookup lower text_eq is_plain_ident
    starts_ident in_ident begins
all_read_back = refl

two_names : 0 < length (values standbys)
unfolding values from_list add_all add empty put lookup lower text_eq
two_names = omega arith

parse-sync_param_example :
    (param : Text) × (r : Ssn) × (sync_param true standbys ≡ some param)
    × (parse_sync_standby_names param ≡ some r)
    × (r.num ≡ length (values standbys))
    × ((w : Text) → contains r.members w ≡ contains standbys w)
parse-sync_param_example =
    parse-sync_param standbys (from_list-IsValid (codes "r1" ∷ codes "r-2" ∷ [])) no_star
      all_read_back two_names

all-in_ident : all in_ident (codes "one") ≡ true
unfolding all in_ident
all-in_ident = refl

keyword_prefix_unreadable_example :
    (quote_ident (codes "any" ++ codes "one") ≡ codes "any" ++ codes "one")
    × (parse_sync_standby_names (codes "any" ++ codes "one") ≡ none)
keyword_prefix_unreadable_example = keyword_prefix_unreadable b'o' (codes "ne") all-in_ident

abbrev pub row : Row
row = record {
  pid = 7;
  application_name = codes "r1";
  sync_state = codes "sync";
  write_lsn = some (pos 100);
  flush_lsn = some (pos 100);
  replay_lsn = some (pos 100);
}

abbrev pub postgres : Postgres
postgres = record {
  synchronous_commit = codes "on";
  synchronous_standby_names = codes "r1";
  stat_replication = row ∷ [];
  last_operation = pos 100;
  last_operation_before = pos 100;
  supports_multiple_sync = true;
}

abbrev pub cluster : Cluster
cluster = record {
  initialize = none;
  leader = none;
  status = record { last_lsn = pos 90; slots = none };
  members =
      record { name = codes "r1"; fields = field (codes "state") (str (codes "running")) end } ∷ [];
  failover = none;
  sync = record { version = none; leader = none; sync_standby = none };
  history = none;
  failsafe = none;
}

is_synced : contains (current_state end postgres cluster new_handler).2 (codes "r1") ≡ true
unfolding current_state contains lookup pick promotable_first select replica_list sort_replicas
    getitem from_entries setitem put no_entries text_eq lower sort_column is_running member_state
    new_handler has_key keys add empty size member_tags is_empty matches text_lt check_mode get_int
    is_synchronous_mode_strict maximum_lag_on_syncnode min_synchronous_nodes synchronous_node_count
    max_lsn begins empty_ssn has_kind in_ident match_at parse_sync_standby_names read scan span
    starts_ident synclist tokens flag_ready handle_names_change keep_listed or_empty_ssn
    process_replica_readiness ◌-ℤ◌ any get nofailover nosync parse_bool parse_int is_space
    str_to_list before_parenend lower_code
is_synced = refl

sync_nodes_awaited_example :
    (contains (current_state end postgres cluster new_handler).1 (codes "r1") ≡ true)
    × (contains (or_empty_ssn (parse_sync_standby_names (codes "r1"))).members (codes "r1") ≡ true)
sync_nodes_awaited_example =
    sync_nodes_awaited end postgres cluster new_handler new_handler-IsTracked (codes "r1") is_synced

candidates_bounded_example :
    (size (current_state end postgres cluster new_handler).1 ≤ 1)
    ⊎ (true ≡ true)
      × (pos (size (current_state end postgres cluster new_handler).1)
          ≤ℤ synchronous_node_count end)
candidates_bounded_example = candidates_bounded end postgres cluster new_handler

is_candidate : contains (current_state end postgres cluster new_handler).1 (codes "r1") ≡ true
is_candidate =
    (sync_nodes_awaited end postgres cluster new_handler new_handler-IsTracked (codes "r1")
      is_synced).0

candidate_source_example :
    (r : Replica) × (text_eq (lower r.application_name) (lower (codes "r1")) ≡ true)
    × IsFrom (from_entries (members_by_name cluster.members)) (codes "on") (row ∷ []) r
candidate_source_example =
    candidate_source end postgres cluster new_handler (codes "r1") is_candidate

pub picked_r1 : (current_state on postgres cluster new_handler).1 ≡ from_list (codes "r1" ∷ [])
unfolding current_state contains lookup pick promotable_first select replica_list sort_replicas
    getitem from_entries setitem put no_entries text_eq lower sort_column is_running member_state
    new_handler has_key keys add empty size member_tags is_empty matches text_lt check_mode get_int
    is_synchronous_mode_strict maximum_lag_on_syncnode min_synchronous_nodes synchronous_node_count
    max_lsn begins empty_ssn has_kind in_ident match_at parse_sync_standby_names read scan span
    starts_ident synclist tokens flag_ready handle_names_change keep_listed or_empty_ssn
    process_replica_readiness ◌-ℤ◌ any get nofailover nosync parse_bool parse_int is_space
    str_to_list before_parenend lower_code from_list add_all
picked_r1 = refl
