-- ===== src/Scenarios/Election.antt =====
-- Elections at concrete inputs: in a pause, in synchronous mode, after a failed script, and with
-- the `nofailover` tag.
use otus_hightload.Prelude.{true, false, none, some, ◌≡◌, ◌↔◌, refl, inl, all, any, select}
use mathlib.Core.List.{Memᴰ}
use otus_hightload.Prelude.Int.{pos, ◌-ℤ◌}
use otus_hightload.Prelude.Text.{codes, text_eq, lower, split, strip, mem_text}
use otus_hightload.Py.{bool, field, end, get}
use otus_hightload.Utils.{parse_bool, parse_int}
use otus_hightload.Tags.{nofailover, failover_priority}
use otus_hightload.Dcs.SyncState.{is_empty, str_to_list, matches, leader_matches}
use otus_hightload.Dcs.Cluster.{Member, member_tags, api_url, is_requested}
use otus_hightload.GlobalConfig.{
  check_mode, is_paused, is_standby_cluster, is_synchronous_mode, maximum_lag_on_failover, get_int,
}
use otus_hightload.Ha.Node.{Node, names, sync_mode_is_active, failover_request}
use otus_hightload.Ha.Status.{
  failover_limitation, fetch_node_status, fetch_nodes_statuses, from_api_response, status_tags,
  watchdog_failed,
}
use otus_hightload.Ha.Race.{
  is_rival, is_healthiest_among, lets_us_lead, timeline_stops, is_lagging, candidate_of,
  is_failover_possible, is_eligible, can_take_over, get_failover_candidates,
}
use otus_hightload.Ha.Race.Takeover.{
  IsCandidate, CanLead, is_failover_possible_iff, takeover_in_sync,
}
use otus_hightload.Ha.Election.{
  is_healthiest_node, manual_failover_process_no_leader, automatic_race, distinct_members,
  all_known_members,
}
use otus_hightload.Ha.Election.Safety.{
  nofailover_never_wins, paused_wins_by_candidate, sync_wins_in_sync,
}
use otus_hightload.Scenarios.Race.{unlocked, node, both}

-- `a` is a synchronous standby of the lost leader `b`
abbrev in_sync : Node
in_sync = record (node (codes "a")) {
  config = field (codes "synchronous_mode") (bool true) end;
  cluster = record unlocked {
    sync = record { version = some 3; leader = some (codes "b"); sync_standby = some (codes "a") };
  };
}

in_sync_active : sync_mode_is_active in_sync ≡ true
unfolding sync_mode_is_active is_synchronous_mode check_mode is_standby_cluster parse_bool get any
    text_eq is_empty
in_sync_active = refl

in_sync_not_paused : is_paused in_sync.config ≡ false
unfolding is_paused check_mode parse_bool get any text_eq
in_sync_not_paused = refl

in_sync_no_request : failover_request in_sync ≡ none
unfolding failover_request
in_sync_no_request = refl

in_sync_wins : (is_healthiest_node in_sync).wins ≡ true
unfolding is_healthiest_node failover_request nofailover is_paused automatic_race all_known_members
    distinct_members is_healthiest_among is_lagging maximum_lag_on_failover get_int parse_int get
    timeline_stops check_mode is_standby_cluster parse_bool any text_eq select is_rival member_tags
    api_url all fetch_nodes_statuses lets_us_lead fetch_node_status from_api_response
    failover_limitation status_tags watchdog_failed failover_priority sync_mode_is_active
    is_synchronous_mode matches is_empty str_to_list split strip lower mem_text leader_matches ◌-ℤ◌
in_sync_wins = refl

sync_wins_in_sync_example : matches in_sync.cluster.sync (codes "a") true ≡ true
sync_wins_in_sync_example =
    sync_wins_in_sync in_sync in_sync_active in_sync_not_paused refl (inl in_sync_no_request)
      in_sync_wins

abbrev tagged : Node
tagged = record (node (codes "a")) { tags = field (codes "nofailover") (bool true) end }

tagged_is_tagged : nofailover tagged.tags ≡ true
unfolding nofailover get text_eq
tagged_is_tagged = refl

nofailover_never_wins_example : (is_healthiest_node tagged).wins ≡ false
nofailover_never_wins_example = nofailover_never_wins tagged tagged_is_tagged refl

-- a manual failover to `a` in a pause
abbrev paused : Node
paused = record (node (codes "a")) {
  config = field (codes "pause") (bool true) end;
  cluster = record unlocked {
    failover = some (record {
      version = some 1;
      leader = none;
      candidate = some (codes "a");
      scheduled_at = none;
    });
  };
}

paused_is_paused : is_paused paused.config ≡ true
unfolding is_paused check_mode parse_bool get any text_eq
paused_is_paused = refl

paused_wins : (is_healthiest_node paused).wins ≡ true
unfolding is_healthiest_node failover_request is_requested nofailover parse_int is_paused check_mode
    parse_bool get any text_eq manual_failover_process_no_leader
paused_wins = refl

paused_wins_by_candidate_example : names (candidate_of (failover_request paused)) (codes "a") ≡ true
paused_wins_by_candidate_example = paused_wins_by_candidate paused paused_is_paused refl paused_wins

-- the primary `b` looks for somebody to take over
abbrev primary : Node
primary = record in_sync { name = codes "b"; is_primary = true }

primary_active : sync_mode_is_active primary ≡ true
unfolding sync_mode_is_active is_synchronous_mode check_mode is_standby_cluster parse_bool get any
    text_eq is_empty
primary_active = refl

primary_no_request : failover_request primary ≡ none
unfolding failover_request
primary_no_request = refl

primary_finds : is_failover_possible primary (pos 0) false ≡ true
unfolding is_failover_possible get_failover_candidates is_eligible can_take_over failover_request
    nofailover is_lagging maximum_lag_on_failover get_int parse_int get check_mode
    is_standby_cluster parse_bool any text_eq select member_tags api_url fetch_nodes_statuses
    fetch_node_status from_api_response failover_limitation status_tags watchdog_failed
    sync_mode_is_active is_synchronous_mode matches is_empty str_to_list split strip lower mem_text
    ◌-ℤ◌
primary_finds = refl

takeover_in_sync_example :
    (m : Member) × Memᴰ m both
    × (matches primary.cluster.sync m.name false ≡ true)
    × (text_eq m.name (codes "b") ≡ false)
    × (failover_limitation (fetch_node_status primary m) ≡ none)
takeover_in_sync_example =
    takeover_in_sync primary (pos 0) false primary_active (inl primary_no_request) primary_finds

is_failover_possible_iff_example : (is_failover_possible primary (pos 0) false ≡ true) ↔ (
    (m : Member) × Memᴰ m both
    × IsCandidate primary false m
    × CanLead primary (pos 0) (fetch_node_status primary m))
is_failover_possible_iff_example = is_failover_possible_iff primary (pos 0) false
