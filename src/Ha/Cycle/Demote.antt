-- ===== src/Ha/Cycle/Demote.antt =====
-- `demote`, `_get_node_to_follow` and the preparation of pg_rewind in .patroni/patroni/ha.py. Requests
-- to the coordinator of Citus are left out.
use otus_hightload.Prelude.{
  [], ◌==◌, Bool, true, false, not, ◌&&◌, ◌||◌, Option, none, some, is_some, if◌then◌else◌, String,
}
use otus_hightload.Prelude.Int.{ℤ}
use otus_hightload.Prelude.Text.{Text, codes, text_eq, non_empty}
use otus_hightload.Py.{Fields, Value, str, get}
use otus_hightload.Tags.{nostream}
use otus_hightload.GlobalConfig.{is_paused, is_standby_cluster, is_synchronous_mode}
use otus_hightload.Dcs.Cluster.{Cluster, Member, is_unlocked, leader_name, get_member}
use otus_hightload.Ha.Cycle.Calls.{
  replica, demoted, ControlState, in_archive_recovery, Action, crash_recovery, pg_rewind,
  reinitialize_diverged, start_after_demotion, DemoteMode, offline, graceful, immediate,
  immediate_nolock, Upstream, nobody, member_named, remote_member, get_cluster, pg_is_running,
  set_role, stop_to_demote, follow_node, control_state, set_standby_names, can_rewind,
  rewind_needed_and_possible, remove_on_diverged, trigger_check_diverged_lsn, try_run, time,
}
use otus_hightload.Ha.Cycle.Run.{Ha, Proc, pure, attempt, call, ask, act, self, become, ◌>>=◌, ◌>>◌}
use otus_hightload.Ha.Cycle.Lock.{set_is_leader, release_leader_key_voluntarily, failover_possible}

-- `try_run_async(...) or msg`
unfoldable pub run_async : Action → String → Proc String
run_async action msg = do
  started ← ask (try_run action)
  pure (if started then msg else "Not running {0}, {1} is already in progress")

text_of : Option Value → Text
text_of (some (str s)) = s
text_of _ = []

-- the `replicatefrom` tag, empty where there is none
unfoldable pub replicatefrom : Fields → Text
unfolding text_of
replicatefrom tags = text_of (get (codes "replicatefrom") tags)

-- the member, or else the leader
member_or_leader : Option Member → Text → Text
member_or_leader (some m) leader = m.name
member_or_leader none leader = leader

other_than : Text → Text → Upstream
other_than me name = if non_empty name && not (text_eq name me) then member_named name else nobody

unfoldable pub get_node_to_follow : Ha → Cluster → Upstream
unfolding member_or_leader other_than
get_node_to_follow s c =
    let leader = leader_name c in
    let source = replicatefrom s.tags in
    if nostream s.tags
    then nobody
    else if is_standby_cluster s.config
        && (non_empty leader && text_eq leader s.name || is_unlocked c && not (is_paused s.config))
    then remote_member
    else if non_empty source && not (text_eq source s.name)
    then other_than s.name (member_or_leader (get_member c source) leader)
    else other_than s.name leader

unfoldable pub handle_crash_recovery : Proc (Option String)
handle_crash_recovery = do
  s ← self
  if s.crash_recovery_started == 0
      then (do
        rewinds ← if is_unlocked s.view.cluster then pure true else ask can_rewind
        if rewinds
            then (do
              now ← call time
              become (record s { crash_recovery_started = now })
              msg ← run_async crash_recovery "doing crash recovery in a single user mode"
              pure (some msg))
            else pure none)
      else pure none

is_archive : ControlState → Bool
is_archive in_archive_recovery = true
is_archive _ = false

unfoldable pub crash_recovery_first : Proc (Option String)
unfolding is_archive
crash_recovery_first = do
  runs ← ask pg_is_running
  if runs then pure none else (do
    control ← call control_state
    if is_archive control then handle_crash_recovery else pure none)

unfoldable pub rewind_or_remove : Proc (Option String)
unfolding crash_recovery_first
rewind_or_remove = do
  rewinds ← ask can_rewind
  msg ← if rewinds then crash_recovery_first else pure none
  if is_some msg
      then pure msg
      else if rewinds
      then (do m ← run_async pg_rewind "running pg_rewind from {0}"; pure (some m))
      else (do
        removes ← ask remove_on_diverged
        s ← self
        if removes && not (is_standby_cluster s.config)
            then (do
              m ← run_async reinitialize_diverged "reinitializing due to diverged timelines"
              pure (some m))
            else pure none)

unfoldable pub handle_rewind_or_reinitialize : Proc (Option String)
unfolding rewind_or_remove
handle_rewind_or_reinitialize = do
  s ← self
  needed ← ask rewind_needed_and_possible
  if needed && (is_standby_cluster s.config || is_some s.view.cluster.leader)
      then rewind_or_remove
      else pure none

-- `release`, `offline` and `async_req` of `mode_control`
unfoldable pub releases : DemoteMode → Bool
releases graceful = true
releases immediate = true
releases _ = false

is_offline : DemoteMode → Bool
is_offline offline = true
is_offline _ = false

in_background : DemoteMode → Bool
in_background immediate = true
in_background immediate_nolock = true
in_background _ = false

-- `on_shutdown`, with the position of the shutdown checkpoint; whether it has released the key
unfoldable pub on_shutdown : ℤ → Proc Bool
on_shutdown checkpoint_location = do
  possible ← failover_possible checkpoint_location
  if possible
      then act (set_role demoted) >> release_leader_key_voluntarily >> pure true
      else pure false

-- `stop`, which calls `on_shutdown` where it is given and pg_control reports a clean shutdown
unfoldable pub stopped_clean : DemoteMode → Option ℤ → Proc Bool
unfolding on_shutdown
stopped_clean mode none = pure false
stopped_clean mode (some location) = if releases mode then on_shutdown location else pure false

-- what is followed after the demotion; no exception is let out
unfoldable pub upstream_after : DemoteMode → Proc Upstream
unfolding is_offline
upstream_after mode =
    if is_offline mode
    then pure nobody
    else attempt (do v ← call get_cluster; s ← self; pure (get_node_to_follow s v.cluster))
        (λ e. pure nobody)

unfoldable pub restart_demoted : DemoteMode → Upstream → Proc (Unit {0})
unfolding in_background
restart_demoted mode up =
    if in_background mode then ask (try_run start_after_demotion) >> pure tt else (do
      rewinds ← ask rewind_needed_and_possible
      if rewinds then pure tt else act (follow_node up replica))

unfoldable pub demote : DemoteMode → Proc (Unit {0})
unfolding stopped_clean upstream_after restart_demoted
demote mode = do
  act trigger_check_diverged_lsn
  location ← call (stop_to_demote mode)
  released ← stopped_clean mode location
  act (set_role demoted)
  set_is_leader false
  if releases mode && not released then release_leader_key_voluntarily else pure tt
  up ← upstream_after mode
  s ← self
  if is_synchronous_mode s.config then act (set_standby_names false) else pure tt
  restart_demoted mode up
