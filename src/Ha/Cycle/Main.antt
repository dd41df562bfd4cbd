-- ===== src/Ha/Cycle/Main.antt =====
-- `_run_cycle`, `_handle_dcs_error` and `run_cycle` of .patroni/patroni/ha.py.
use otus_hightload.Prelude.{
  Bool, true, false, not, ◌&&◌, ◌==◌, Option, none, some, is_some, if◌then◌else◌, String,
}
use otus_hightload.Py.{Fields, end}
use otus_hightload.GlobalConfig.{is_paused}
use otus_hightload.Dcs.Cluster.{is_unlocked, has_member}
use otus_hightload.Ha.Cycle.Calls.{
  ConfigKey, View, demote_offline, offline, dcs_error, postgres_error, get_cluster, initialize,
  set_config_value, touch_member, is_primary, pg_is_running, is_bootstrapping, sync_slots,
  rewind_is_needed, rewind_executed, rewind_failed, reset_rewind, watchdog_disable,
  watchdog_keepalive, is_busy, try_run, check_failsafe_topology, set_failsafe_active,
  reset_cluster_info, schedule_sanity_checks, is_raft,
}
use otus_hightload.Ha.Cycle.Run.{
  msg_or, Run, returns, raises, calls, Proc, pure, raise, call, ask, act, self, become, attempt,
  ◌>>=◌, ◌>>◌,
}
use otus_hightload.Ha.Cycle.Lock.{
  is_empty_view, is_failsafe_mode, has_lock, is_leader, set_is_leader, load_cluster_from_dcs,
}
use otus_hightload.Ha.Cycle.Demote.{demote}
use otus_hightload.Ha.Cycle.Recover.{post_recover}
use otus_hightload.Ha.Cycle.Busy.{handle_starting_instance, handle_long_action_in_progress}
use otus_hightload.Ha.Cycle.Idle.{run_idle}
use otus_hightload.Ha.Cycle.Start.{sysid_valid, post_bootstrap}

-- `global_config.update(cluster)`
config_of : Option ConfigKey → Fields → Fields
config_of none old = old
config_of (some key) old = if key.modify_version == 0 then old else key.settings

unfoldable pub updated_config : View → Fields → Fields
unfolding config_of
updated_config v old = if is_empty_view v then old else config_of v.config old

unfoldable pub read_cluster : Proc (Unit {0})
read_cluster = do
  load_cluster_from_dcs
  s ← self
  become (record s { config = updated_config s.view s.config })
  act (reset_cluster_info true)

unfoldable pub note_pause : Proc (Unit {0})
note_pause = do
  s ← self
  if is_paused s.config
      then act watchdog_disable >> become (record s { was_paused = true })
      else (do
        if s.was_paused then act schedule_sanity_checks >> act reset_rewind else pure tt
        become (record s { was_paused = false }))

settings_empty : Fields → Bool
settings_empty end = true
settings_empty _ = false

-- `cluster.config and cluster.config.data`
has_settings : Option ConfigKey → Bool
unfolding settings_empty
has_settings none = false
has_settings (some key) = not (settings_empty key.settings)

-- the keys that a leader adds where they are missing
unfoldable pub fill_keys : Proc (Unit {0})
unfolding has_settings
fill_keys = do
  s ← self
  if has_member s.view.cluster s.name then pure tt else act touch_member
  if has_lock s && not (sysid_valid s.view.cluster.initialize)
      then ask (initialize (not (is_some s.view.cluster.initialize))) >> pure tt
      else pure tt
  if has_lock s && not (has_settings s.view.config)
      then (do act set_config_value; v ← call get_cluster; become (record s { view = v }))
      else pure tt

-- after a recovery; none goes on
unfoldable pub end_recovery : Proc (Option String)
end_recovery = do
  s ← self
  become (record s { recovering = false })
  needed ← ask rewind_is_needed
  msg ← if needed then pure none else post_recover
  if is_some msg then pure msg else (do
    s' ← self
    become (record s' { crash_recovery_started = 0 })
    executed ← ask rewind_executed
    failed ← if executed then ask rewind_failed else pure true
    if failed then pure tt else act reset_rewind
    raft ← if is_unlocked s'.view.cluster then ask is_raft else pure false
    pure (if raft then some "started as a secondary" else none))

-- no background action runs
unfoldable pub run_free : Proc String
unfolding run_idle end_recovery
run_free = do
  msg ← handle_starting_instance
  msg_or msg (do
    bootstraps ← ask is_bootstrapping
    if bootstraps then post_bootstrap else (do
      s ← self
      done ← if s.recovering then end_recovery else pure none
      msg_or done run_idle))

-- The body of `_run_cycle`, in its `try`.
unfoldable pub cycle_body : Proc String
unfolding read_cluster note_pause fill_keys run_free
cycle_body = do
  attempt read_cluster (λ e. act (reset_cluster_info false) >> raise e)
  note_pause
  fill_keys
  busy ← ask is_busy
  if busy then handle_long_action_in_progress else run_free

unfoldable pub demote_offline_now : Proc String
demote_offline_now = do
  act (set_failsafe_active false)
  started ← ask (try_run demote_offline)
  if started
      then pure "demoting self because DCS is not accessible and I was a leader"
      else demote offline >> pure "demoted self because DCS is not accessible and I was a leader"

unfoldable pub lead_offline : Proc String
unfolding demote_offline_now
lead_offline = do
  s ← self
  agreed ← if is_failsafe_mode s then ask check_failsafe_topology else pure false
  if agreed
      then (do
        set_is_leader true
        act (set_failsafe_active true)
        act watchdog_keepalive
        pure
            "continue to run as a leader because failsafe mode is enabled and all members are accessible")
      else demote_offline_now

unfoldable pub handle_dcs_error : Proc String
unfolding lead_offline
handle_dcs_error = do
  s ← self
  runs ← if is_paused s.config then pure false else ask pg_is_running
  leads ← if runs then ask is_primary else pure false
  if leads
      then lead_offline
      else (if runs
          then ask (sync_slots true) >> pure "DCS is not accessible"
          else pure "DCS is not accessible")

-- the `finally` of `_run_cycle`, without an error of the store
unfoldable pub conclude : Proc (Unit {0})
conclude = do
  leads ← is_leader
  if leads then act (set_failsafe_active false) else pure tt
  act touch_member

unfoldable pub concluded : Run String → Run String
unfolding conclude
concluded (returns msg s) = (conclude >> pure msg) s
concluded (raises dcs_error s) = handle_dcs_error s
concluded (raises postgres_error s) =
    (conclude >> pure "Error communicating with PostgreSQL. Will try again later") s
concluded (raises e s) = (conclude >> raise e) s
concluded (calls c k) = calls c (λ r. concluded (k r))

-- `_run_cycle`
unfoldable pub run_cycle : Proc String
unfolding concluded
run_cycle s = concluded (cycle_body s)
