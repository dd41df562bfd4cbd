-- ===== src/Scenarios/Api.antt =====
-- The REST API at concrete nodes: `b` is a replica of the leader `a`.
use otus_hightload.Ha.Cycle.Calls.{ConfigKey}
use otus_hightload.Utils.Patch.{patch_config, has_null}
use otus_hightload.Api.Request.{read_json_content, Body, body}
use otus_hightload.Api.Config.{do_patch_config}
use otus_hightload.Api.Config.Stored.{stored_after, patch_shows_stored}
use otus_hightload.Utils.{
  py_str, parse_bool, parse_int, round_ratio, convert_to_base_unit, round_half, strtol, floats_on,
  parse_int_unit,
}
use otus_hightload.Prelude.{select, not, ◌&&◌, true, false, none, some, [], ◌∷◌, ◌≡◌, refl, is_some}
use otus_hightload.Ha.Status.{
  fetch_nodes_statuses, fetch_node_status, from_api_response, failover_limitation, status_tags,
  watchdog_failed,
}
use otus_hightload.Tags.{nofailover, noloadbalance}
use otus_hightload.Dcs.Cluster.{is_unlocked, leader_name, Cluster}
use otus_hightload.GlobalConfig.{is_standby_cluster, is_paused, check_mode, is_synchronous_mode}
use otus_hightload.Ha.Cycle.Lock.{is_empty_view}
use otus_hightload.Prelude.Int.{◌+ℤ◌, pos}
use otus_hightload.Prelude.Text.{non_empty, mem_text, contains_text, codes, text_eq}
use otus_hightload.Py.{int, dict, get, Fields, str, null, field, end}
use otus_hightload.Scenarios.Race.{unlocked, member, node}
use otus_hightload.Api.Status.{response_of_row, get_postgresql_status, Server, Row, known}
use otus_hightload.Api.Health.{
  max_replica_lag, leader_optime, route, status_codes, is_lagging, replica_code, replayed_location,
  Query, do_get, match_tags,
}
use otus_hightload.Api.Health.Routes.{passes, Partition, routes-Partition}
use otus_hightload.Api.Health.Replica.{Serves, replica-Serves}
use otus_hightload.Api.Schedule.{parse_schedule}
use otus_hightload.Api.Failover.{
  check_request, with_nodes, with_names, with_schedule, missing_name, effective_action,
  is_failover_possible, candidates, poll_failover_result, switchover, World, do_post_failover,
  name_in, candidate_in,
}
use otus_hightload.Api.Failover.Checks.{IsChecked, failover-IsChecked}
use otus_hightload.Api.Failover.Answer.{no_status_iff, is_switchover}

abbrev led : Cluster
led = record unlocked { leader = some (record { version = none; member = member (codes "a") }) }

abbrev standby_row : Row
standby_row = record {
  start_time = null;
  timeline = 0;
  flushed = pos 0;
  replayed = some (pos 80);
  received = pos 100;
  replay_paused = false;
  replay_timestamp = null;
  receiver_state = codes "streaming";
  restore_command = [];
  replication = null;
}

abbrev server : Server
server = record {
  pg_state = codes "running";
  pg_role = codes "replica";
  pg_name = codes "b";
  server_version = 160003;
  major_version = 160000;
  own_restore_command = false;
  row = some standby_row;
  replica_timeline = λ t. t;
  view = some (record { cluster = led; config = none; has_workers = false });
  config = end;
  is_leader = false;
  failsafe_is_active = false;
  last_seen = 0;
  tags = field (codes "zone") (str (codes "x")) end;
}

abbrev query : Query
query = (codes "lag", codes "1kB") ∷ (codes "tag_zone", codes "x") ∷ []

server_known : is_some (known server) ≡ true
unfolding known is_empty_view
server_known = refl

server-passes : passes server query "/replica" ≡ true
unfolding passes do_get is_lagging leader_optime known is_empty_view replayed_location
    get_postgresql_status mem_text text_eq response_of_row route contains_text status_codes
    replica_code noloadbalance get ◌+ℤ◌ max_replica_lag parse_int_unit floats_on strtol
    convert_to_base_unit round_ratio round_half is_standby_cluster match_tags
server-passes = refl

too_slow : do_get server (codes "/replica") ((codes "lag", codes "9B") ∷ []) ≡ some 503
unfolding do_get is_lagging leader_optime known is_empty_view replayed_location
    get_postgresql_status mem_text text_eq response_of_row route contains_text status_codes
    replica_code noloadbalance get ◌+ℤ◌ max_replica_lag parse_int_unit floats_on strtol
    convert_to_base_unit round_ratio round_half
too_slow = refl

abbrev world : World
world = record {
  node = node (codes "a");
  cluster = led;
  config = end;
  clock = record {
    parse = λ _. some (record { has_timezone = true; seconds = pos 100 });
    now = pos 50;
  };
  written = true;
  loop_wait = 10;
  polled = λ _.
      some (record led { leader = some (record { version = none; member = member (codes "b") }) });
}

abbrev to_b : Fields
to_b = field (codes "leader") (str (codes "a")) (field (codes "candidate") (str (codes "b")) end)

to_b_done : (do_post_failover world switchover to_b).status ≡ some 200
unfolding do_post_failover check_request with_nodes with_names with_schedule missing_name name_in
    candidate_in effective_action text_eq get is_paused check_mode parse_bool is_failover_possible
    candidates is_synchronous_mode select fetch_nodes_statuses fetch_node_status from_api_response
    failover_limitation nofailover parse_int status_tags watchdog_failed poll_failover_result
    is_unlocked leader_name
to_b_done = refl

to_b_written : (do_post_failover world switchover to_b).writes ≡ true
unfolding do_post_failover check_request with_nodes with_names with_schedule missing_name name_in
    candidate_in effective_action text_eq get is_paused check_mode parse_bool is_failover_possible
    candidates is_synchronous_mode select fetch_nodes_statuses fetch_node_status from_api_response
    failover_limitation nofailover parse_int status_tags watchdog_failed poll_failover_result
    is_unlocked leader_name
to_b_written = refl

same_node :
    (do_post_failover world switchover (
      field (codes "leader") (str (codes "a")) (
        field
          (codes "candidate")
          (str (codes "a"))
          (field (codes "scheduled_at") (str (codes "tomorrow")) end)))).status
    ≡ none
unfolding do_post_failover check_request with_nodes with_names with_schedule missing_name name_in
    candidate_in effective_action text_eq get is_paused check_mode parse_bool parse_schedule
same_node = refl

routes-Partition_example : Partition server query
routes-Partition_example = routes-Partition server query server_known

replica-Serves_example : (row : Row) × Serves server query row
replica-Serves_example = replica-Serves server query server-passes

failover-IsChecked_example : IsChecked world switchover to_b
failover-IsChecked_example =
    failover-IsChecked world switchover to_b (unfold name_in get text_eq in refl) to_b_written

no_status_iff_example :
    is_some (do_post_failover world switchover to_b).status
    ≡ not (
        is_switchover switchover
        && non_empty (name_in to_b (codes "leader"))
        && not (is_paused world.config)
        && non_empty (name_in to_b (codes "scheduled_at"))
        && not (is_some (parse_schedule world.clock (name_in to_b (codes "scheduled_at"))).error)
        && text_eq (name_in to_b (codes "leader")) (candidate_in to_b))
no_status_iff_example = no_status_iff world switchover to_b

abbrev stored_key : ConfigKey
stored_key = record { settings = field (codes "ttl") (int (pos 30)) end; modify_version = 1 }

abbrev longer : Body
longer = body (some (dict (field (codes "ttl") (int (pos 60)) end)))

longer_stored : (do_patch_config (some stored_key) true longer).status ≡ 200
unfolding do_patch_config read_json_content patch_config get text_eq py_str
longer_stored = refl

patch_shows_stored_example :
    (do_patch_config (some stored_key) true longer).body
    ≡ some (stored_after stored_key (do_patch_config (some stored_key) true longer))
patch_shows_stored_example =
    patch_shows_stored stored_key true longer (unfold has_null in refl) longer_stored
