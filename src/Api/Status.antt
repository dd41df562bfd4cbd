-- ===== src/Api/Status.antt =====
-- `get_postgresql_status` of .patroni/patroni/api.py: what a node says about its PostgreSQL.
use otus_hightload.Prelude.{
  ℕ, Bool, true, false, not, ◌&&◌, ◌||◌, ◌==◌, leb, Option, none, some, [], ◌∷◌, if◌then◌else◌,
}
use otus_hightload.Prelude.Int.{ℤ, pos}
use otus_hightload.Prelude.Text.{Text, codes, text_eq, mem_text, non_empty}
use otus_hightload.Py.{Value, Fields, int, get, or_null, truthy}
use otus_hightload.GlobalConfig.{is_paused, is_standby_cluster, is_synchronous_mode}
use otus_hightload.Dcs.SyncState.{matches}
use otus_hightload.Dcs.Cluster.{Cluster, Leader, is_unlocked}
use otus_hightload.Ha.Cycle.Calls.{View}
use otus_hightload.Ha.Cycle.Lock.{is_empty_view}

-- the row of the status query, in the order of its columns
pub record Row : Type 0 where
  pub start_time : Value
  pub timeline : ℕ  -- 0 in recovery
  pub flushed : ℤ
  pub replayed : Option ℤ
  pub received : ℤ
  pub replay_paused : Bool
  pub replay_timestamp : Value
  pub receiver_state : Text  -- empty where there is none
  pub restore_command : Text
  pub replication : Value

-- what the handlers read
pub record Server : Type 0 where
  pub pg_state : Text
  pub pg_role : Text
  pub pg_name : Text
  pub server_version : ℕ
  pub major_version : ℕ
  pub own_restore_command : Bool  -- whether Patroni's configuration has one
  pub row : Option Row  -- none: the query failed
  pub replica_timeline : Option ℤ → Option ℤ  -- replica_cached_timeline
  pub view : Option View  -- dcs.cluster
  pub config : Fields  -- global_config.from_cluster(cluster)
  pub is_leader : Bool
  pub failsafe_is_active : Bool
  pub last_seen : ℕ
  pub tags : Fields

pub data Xlog : Type 0 where
  no_xlog : Xlog
  replica_xlog : Option ℤ → Option ℤ → Value → Bool → Xlog  -- received, replayed, timestamp, paused
  primary_xlog : ℤ → Xlog

-- the dictionary; a flag that is false, and an optional key that is none, are left out of it
pub record Response : Type 0 where
  pub state : Text
  pub role : Text
  pub start_time : Option Value
  pub version : Option ℕ
  pub xlog : Xlog
  pub sync_standby : Bool
  pub timeline : Option ℤ
  pub replication_state : Option Text
  pub replication : Option Value
  pub pause : Bool
  pub cluster_unlocked : Bool
  pub failsafe_mode_is_active : Bool
  pub dcs_last_seen : ℕ

-- a view of the cluster that is not empty
known_view : Option View → Option Cluster
known_view none = none
known_view (some v) = if is_empty_view v then none else some v.cluster

unfoldable pub known : Server → Option Cluster
unfolding known_view
known s = known_view s.view

unfoldable pub unlocked : Option Cluster → Bool
unlocked none = true
unlocked (some c) = is_unlocked c

lists_sync : Option Cluster → Text → Bool
lists_sync none name = false
lists_sync (some c) name = matches c.sync name false

-- the timeline in the member data of the leader
timeline_field : Value → Option ℤ
timeline_field (int n) = some n
timeline_field _ = none

timeline_of : Option Leader → Option ℤ
timeline_of none = none
timeline_of (some l) = timeline_field (or_null (get (codes "timeline") l.member.fields))

leader_timeline : Option Cluster → Option ℤ
leader_timeline none = none
leader_timeline (some c) = if is_unlocked c then none else timeline_of c.leader

-- `replication_state_from_parameters`
unfoldable pub replication_state_from_parameters : Server → Bool → Text → Text → Option Text
replication_state_from_parameters s is_primary receiver_state restore_command =
    if leb 90600 s.major_version && not is_primary
    then (if text_eq receiver_state (codes "streaming")
        then some (codes "streaming")
        else if not (leb 120000 s.major_version) && s.own_restore_command
            || non_empty restore_command
        then some (codes "in archive recovery")
        else none)
    else none

-- `a or b`
or_location : ℤ → Option ℤ → Option ℤ
or_location (pos n) b = if n == 0 then b else some (pos n)
or_location a b = some a

-- what does not depend on the query
unfoldable pub base_response : Server → Text → Text → Response
base_response s state role = record {
  state = state;
  role = role;
  start_time = none;
  version = none;
  xlog = no_xlog;
  sync_standby = false;
  timeline = none;
  replication_state = none;
  replication = none;
  pause = is_paused s.config;
  cluster_unlocked = unlocked (known s);
  failsafe_mode_is_active = s.failsafe_is_active;
  dcs_last_seen = s.last_seen;
}

unfoldable pub row_role : Server → Row → Text
row_role s r =
    if r.timeline == 0
    then (if is_standby_cluster s.config then s.pg_role else codes "replica")
    else codes "master"

unfoldable pub response_of_row : Server → Row → Response
unfolding row_role base_response unlocked lists_sync leader_timeline timeline_of timeline_field
    or_location
response_of_row s r =
    let role = row_role s r in
    record (base_response s s.pg_state role) {
      start_time = some r.start_time;
      version = some s.server_version;
      xlog =
          (if r.timeline == 0
            then replica_xlog (or_location r.received r.replayed) r.replayed r.replay_timestamp
                r.replay_paused
            else primary_xlog r.flushed);
      sync_standby =
          text_eq role (codes "replica")
          && is_synchronous_mode s.config
          && lists_sync (known s) s.pg_name;
      timeline =
          (if r.timeline == 0
            then s.replica_timeline (leader_timeline (known s))
            else some (pos r.timeline));
      replication_state =
          replication_state_from_parameters s (not (r.timeline == 0)) r.receiver_state
            r.restore_command;
      replication = (if truthy r.replication then some r.replication else none);
    }

-- where the query was not made, or failed
unfoldable pub response_without_row : Server → Response
unfolding base_response unlocked
response_without_row s =
    base_response s (if text_eq s.pg_state (codes "running") then codes "unknown" else s.pg_state)
      s.pg_role

unfoldable pub is_up : Text → Bool
is_up state = mem_text state (codes "running" ∷ codes "restarting" ∷ codes "starting" ∷ [])

unfoldable pub response_of : Server → Option Row → Response
response_of s none = response_without_row s
response_of s (some r) = response_of_row s r

unfoldable pub get_postgresql_status : Server → Response
unfolding is_up response_of unlocked
get_postgresql_status s = if is_up s.pg_state then response_of s s.row else response_without_row s
