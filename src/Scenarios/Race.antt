-- ===== src/Scenarios/Race.antt =====
-- The leader race at concrete inputs: the nodes `a` and `b` of a cluster without a leader.
use mathlib.Core.List.{Memᴰ}
use otus_hightload.Prelude.{
  true, false, none, some, List, [], ◌∷◌, ◌≡◌, ◌↔◌, refl, inl, all, any, select,
}
use otus_hightload.Prelude.Int.{pos, ◌-ℤ◌}
use otus_hightload.Prelude.Text.{Text, codes, text_eq}
use otus_hightload.Py.{Fields, int, str, dict, field, end, get}
use otus_hightload.Utils.{parse_bool, parse_int}
use otus_hightload.Tags.{nofailover, failover_priority}
use otus_hightload.Dcs.SyncState.{SyncState}
use otus_hightload.Dcs.Cluster.{Member, Cluster, member_tags, api_url}
use otus_hightload.GlobalConfig.{
  check_mode, is_standby_cluster, is_synchronous_mode, maximum_lag_on_failover, get_int,
}
use otus_hightload.Ha.Node.{Node, sync_mode_is_active}
use otus_hightload.Ha.Status.{
  failover_limitation, fetch_node_status, fetch_nodes_statuses, from_api_response, status_tags,
  watchdog_failed,
}
use otus_hightload.Ha.Race.{is_rival, is_healthiest_among, lets_us_lead, timeline_stops, is_lagging}
use otus_hightload.Ha.Race.Healthiest.{
  IsFit, RivalsGiveWay, Sees, race_winners_level, is_healthiest_among_iff,
}

abbrev pub member : Text → Member
member name = record { name = name; fields = field (codes "api_url") (str (codes "http")) end }

-- the answer of a replica at position 100
abbrev pub answer : Fields
answer = field (codes "xlog") (dict (field (codes "received_location") (int (pos 100)) end)) end

abbrev pub both : List Member
both = member (codes "a") ∷ member (codes "b") ∷ []

abbrev pub no_key : SyncState
no_key = record { version = none; leader = none; sync_standby = none }

abbrev pub unlocked : Cluster
unlocked = record {
  initialize = none;
  leader = none;
  status = record { last_lsn = pos 90; slots = none };
  members = both;
  failover = none;
  sync = no_key;
  history = none;
  failsafe = none;
}

abbrev pub node : Text → Node
node name = record {
  name = name;
  tags = end;
  config = end;
  cluster = unlocked;
  old_members = [];
  old_is_current = false;
  failsafe = none;
  is_primary = false;
  last_operation = pos 100;
  primary_timeline = pos 0;
  replica_timeline = λ t. some t;
  sysid = [];
  watchdog_is_healthy = true;
  now = 1000;
  ttl = 30;
  released_leader_key = 0;
  request = λ m. some answer;
}

a-Sees_b : Sees (node (codes "a")) (node (codes "b")) (member (codes "b")) both
unfolding is_rival text_eq nofailover member_tags get parse_int api_url failover_limitation
    fetch_node_status from_api_response status_tags watchdog_failed failover_priority
    sync_mode_is_active is_synchronous_mode check_mode parse_bool any
a-Sees_b = record {
  listed = Memᴰ.tail (Memᴰ.head refl);
  rival = refl;
  promotable = refl;
  position = refl;
  priority = refl;
  counted = inl refl;
}

b-Sees_a : Sees (node (codes "b")) (node (codes "a")) (member (codes "a")) both
unfolding is_rival text_eq nofailover member_tags get parse_int api_url failover_limitation
    fetch_node_status from_api_response status_tags watchdog_failed failover_priority
    sync_mode_is_active is_synchronous_mode check_mode parse_bool any
b-Sees_a = record {
  listed = Memᴰ.head refl;
  rival = refl;
  promotable = refl;
  position = refl;
  priority = refl;
  counted = inl refl;
}

a_wins : is_healthiest_among (node (codes "a")) both true ≡ true
unfolding is_healthiest_among is_lagging maximum_lag_on_failover get_int parse_int get
    timeline_stops check_mode is_standby_cluster parse_bool any text_eq select is_rival nofailover
    member_tags api_url all fetch_nodes_statuses lets_us_lead fetch_node_status from_api_response
    failover_limitation status_tags watchdog_failed failover_priority sync_mode_is_active
    is_synchronous_mode ◌-ℤ◌
a_wins = refl

b_wins : is_healthiest_among (node (codes "b")) both true ≡ true
unfolding is_healthiest_among is_lagging maximum_lag_on_failover get_int parse_int get
    timeline_stops check_mode is_standby_cluster parse_bool any text_eq select is_rival nofailover
    member_tags api_url all fetch_nodes_statuses lets_us_lead fetch_node_status from_api_response
    failover_limitation status_tags watchdog_failed failover_priority sync_mode_is_active
    is_synchronous_mode ◌-ℤ◌
b_wins = refl

race_winners_level_example :
    (pos 100 ≡ pos 100)
    × (failover_priority (node (codes "a")).tags ≡ failover_priority (node (codes "b")).tags)
race_winners_level_example =
    race_winners_level (node (codes "a")) (node (codes "b")) (member (codes "a"))
      (member (codes "b")) both both true true a-Sees_b b-Sees_a a_wins b_wins

is_healthiest_among_iff_example :
    (is_healthiest_among (node (codes "a")) both true ≡ true)
    ↔ (IsFit (node (codes "a")) true × RivalsGiveWay (node (codes "a")) both)
is_healthiest_among_iff_example = is_healthiest_among_iff (node (codes "a")) both true
