-- ===== src/Ha/Race.antt =====
-- The leader race of ha.py: who takes part, and whether this node may take the leader key.
pub mod Healthiest
pub mod Takeover
use otus_hightload.Prelude.{
  zero, Bool, true, false, not, ◌&&◌, ◌||◌, Option, none, some, List, is_some, if◌then◌else◌, any,
  all, select,
}
use otus_hightload.Prelude.Int.{ℤ, pos, ◌-ℤ◌, ltb_ℤ}
use otus_hightload.Prelude.Text.{Text, codes, text_eq}
use otus_hightload.Py.{truthy}
use otus_hightload.Tags.{nofailover, failover_priority}
use otus_hightload.Dcs.SyncState.{is_set, matches, leader_matches}
use otus_hightload.Dcs.Cluster.{Member, Failover, member_tags, api_url, timeline}
use otus_hightload.GlobalConfig.{check_mode, is_standby_cluster, maximum_lag_on_failover}
use otus_hightload.Ha.Node.{Node, names, sync_mode_is_active, failover_request}
use otus_hightload.Ha.Status.{
  MemberStatus, failover_limitation, status_timeline, status_tags, fetch_nodes_statuses,
}

-- `bool(n)` of an integer
unfoldable pub is_nonzero : ℤ → Bool
is_nonzero (pos zero) = false
is_nonzero _ = true

-- `x is False`
is_false : Option Bool → Bool
is_false (some false) = true
is_false _ = false

-- the fields of the `/failover` key, `None` where there is no request
abbrev pub leader_of : Option Failover → Option Text
leader_of none = none
leader_of (some f) = f.leader

abbrev pub candidate_of : Option Failover → Option Text
candidate_of none = none
candidate_of (some f) = f.candidate

eq_ℤ : ℤ → ℤ → Bool
eq_ℤ a b = not (ltb_ℤ a b) && not (ltb_ℤ b a)

unfoldable pub is_lagging : Node → ℤ → Bool
is_lagging n wal =
    let lag = n.cluster.status.last_lsn -ℤ wal in ltb_ℤ (maximum_lag_on_failover n.config) lag

is_behind : ℤ → Option ℤ → Bool
is_behind cluster_timeline none = true
is_behind cluster_timeline (some mine) = ltb_ℤ mine cluster_timeline

-- The timeline check: it is made only with `check_timeline`, and not in a standby cluster.
unfoldable pub timeline_stops : Node → Bool
unfolding is_behind
timeline_stops n =
    if not (is_standby_cluster n.config) && check_mode n.config (codes "check_timeline")
    then is_behind (timeline n.cluster) (n.replica_timeline (timeline n.cluster))
    else false

-- the members that are asked
unfoldable pub is_rival : Node → Member → Bool
is_rival n m = not (text_eq m.name n.name) && not (nofailover (member_tags m)) && truthy (api_url m)

-- The body of the loop over the answers: `false` is its `return False`.
unfoldable pub lets_us_lead : Node → MemberStatus → Bool
unfolding eq_ℤ is_false
lets_us_lead n st =
    if is_some (failover_limitation st)
    then true
    else if is_false st.in_recovery
    then false
    else if ltb_ℤ n.last_operation st.wal_position
        && (not (sync_mode_is_active n) || not (leader_matches n.cluster.sync st.member.name))
    then false
    else not (
        eq_ℤ n.last_operation st.wal_position
        && ltb_ℤ (failover_priority n.tags) (failover_priority (status_tags st)))

unfoldable pub is_healthiest_among : Node → List Member → Bool → Bool
is_healthiest_among n members check_replication_lag =
    if check_replication_lag && is_lagging n n.last_operation
    then false
    else if timeline_stops n
    then false
    else all (lets_us_lead n) (fetch_nodes_statuses n (select (is_rival n) members))

-- `is_eligible` of `get_failover_candidates`
unfoldable pub is_eligible : Node → Bool → Member → Bool
is_eligible n exclude_candidate m =
    let failover = failover_request n in
    if sync_mode_is_active n
      && not (matches n.cluster.sync m.name false)
      && not (is_some failover && not (is_set (leader_of failover)))
    then false
    else not (text_eq m.name n.name)
      && not (exclude_candidate && names (candidate_of failover) m.name)
      && not (nofailover (member_tags m))
      && truthy (api_url m)
      && (not (is_set (candidate_of failover)) || names (candidate_of failover) m.name)

unfoldable pub get_failover_candidates : Node → Bool → List Member
get_failover_candidates n exclude_candidate =
    select (is_eligible n exclude_candidate) n.cluster.members

-- one round of the loop of `is_failover_possible`
unfoldable pub can_take_over : Node → ℤ → MemberStatus → Bool
unfolding is_nonzero
can_take_over n cluster_lsn st =
    if is_some (failover_limitation st)
    then false
    else if (is_nonzero cluster_lsn && ltb_ℤ st.wal_position cluster_lsn)
        || (not (is_nonzero cluster_lsn) && is_lagging n st.wal_position)
    then false
    else not (
        check_mode n.config (codes "check_timeline")
        && (not (is_nonzero (status_timeline st))
            || ltb_ℤ (status_timeline st) (timeline n.cluster)))

unfoldable pub is_failover_possible : Node → ℤ → Bool → Bool
is_failover_possible n cluster_lsn exclude_candidate =
    any (can_take_over n cluster_lsn)
      (fetch_nodes_statuses n (get_failover_candidates n exclude_candidate))
