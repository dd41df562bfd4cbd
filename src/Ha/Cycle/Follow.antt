-- ===== src/Ha/Cycle/Follow.antt =====
-- `follow` of .patroni/patroni/ha.py.
use otus_hightload.Prelude.{
  Bool, true, false, not, ◌&&◌, ◌||◌, Option, none, some, if◌then◌else◌, String,
}
use otus_hightload.GlobalConfig.{is_paused, is_standby_cluster}
use otus_hightload.Dcs.Cluster.{is_unlocked}
use otus_hightload.Ha.Cycle.Calls.{
  Role, primary, standby_leader, replica, change_conninfo, immediate_nolock, Upstream, nobody,
  remote_member, is_primary, is_starting, pg_role, set_role, follow_node, recovery_conf_change,
  call_nowait, handle_parameter_change, has_history_after, has_conn_url, rewind_is_needed,
  can_rewind_or_reinitialize, trigger_check_diverged_lsn, try_run,
}
use otus_hightload.Ha.Cycle.Run.{msg_or, Proc, pure, call, ask, act, self, ◌>>=◌, ◌>>◌}
use otus_hightload.Ha.Cycle.Lock.{has_lock, load_cluster_from_dcs}
use otus_hightload.Ha.Cycle.Demote.{get_node_to_follow, demote, handle_rewind_or_reinitialize}

is_standby_leader : Role → Bool
is_standby_leader standby_leader = true
is_standby_leader _ = false

is_remote : Upstream → Bool
is_remote remote_member = true
is_remote _ = false

is_nobody : Upstream → Bool
is_nobody nobody = true
is_nobody _ = false

-- from the comparison of recovery.conf on
unfoldable pub change_upstream : Upstream → Role → Proc (Unit {0})
unfolding is_standby_leader
change_upstream up role = do
  (changes, restarts) ← call (recovery_conf_change up)
  if changes
      then (do
        if restarts then ask (try_run change_conninfo) >> pure tt else act (follow_node up role)
        act trigger_check_diverged_lsn)
      else (do
        now ← call pg_role
        if is_standby_leader role && not (is_standby_leader now)
            then act (set_role role) >> act call_nowait
            else pure tt)

-- `has_conn_url`: `node_to_follow and node_to_follow.conn_url`
unfoldable pub follow_upstream : Upstream → String → Proc String
unfolding change_upstream is_remote
follow_upstream up follow_reason = do
  s ← self
  has_url ← ask (has_conn_url up)
  let leads = is_remote up && has_lock s
  if is_standby_cluster s.config && not leads && not has_url
      then pure "continue following the old known standby leader"
      else change_upstream up (if leads then standby_leader else replica) >> pure follow_reason

-- from the check of the timeline history of a standby cluster on
unfoldable pub follow_standby : Upstream → String → Proc String
unfolding follow_upstream
follow_standby up follow_reason = do
  s ← self
  diverged ← if is_standby_cluster s.config then ask has_history_after else pure false
  if diverged then act trigger_check_diverged_lsn else pure tt
  starts ← ask is_starting
  msg ← if starts then pure none else handle_rewind_or_reinitialize
  msg_or msg (do
    s' ← self
    if is_paused s'.config then pure tt else act handle_parameter_change
    follow_upstream up follow_reason)

-- in a pause; none goes on
unfoldable pub follow_paused : Upstream → Bool → Proc (Option String)
unfolding is_standby_leader is_nobody
follow_paused up leads = do
  s ← self
  needed ← ask rewind_is_needed
  allowed ← if needed then ask can_rewind_or_reinitialize else pure false
  if not allowed || is_unlocked s.view.cluster
      then (if leads
          then act (set_role primary) >> pure (some "continue to run as primary without lock")
          else (do
            role ← call pg_role
            if is_standby_leader role then pure tt else act (set_role replica)
            pure (if is_nobody up then some "no action. I am ({0})" else none)))
      else pure none

unfoldable pub follow : String → String → Bool → Proc String
unfolding follow_standby follow_paused
follow demote_reason follow_reason refresh = do
  if refresh then load_cluster_from_dcs else pure tt
  leads ← ask is_primary
  s ← self
  let up = get_node_to_follow s s.view.cluster
  if is_paused s.config
      then (do msg ← follow_paused up leads; msg_or msg (follow_standby up follow_reason))
      else if leads
      then demote immediate_nolock >> pure demote_reason
      else follow_standby up follow_reason
