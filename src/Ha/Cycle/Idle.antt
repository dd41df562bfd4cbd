-- ===== src/Ha/Cycle/Idle.antt =====
-- The end of a pass of `_run_cycle` of .patroni/patroni/ha.py, with no action in the background.
use otus_hightload.Prelude.{
  Bool, true, false, not, ◌&&◌, ◌||◌, Option, none, some, is_some, if◌then◌else◌, String,
}
use otus_hightload.Prelude.Text.{Text}
use otus_hightload.GlobalConfig.{is_paused}
use otus_hightload.Dcs.Cluster.{is_unlocked}
use otus_hightload.Ha.Node.{names}
use otus_hightload.Ha.Cycle.Calls.{
  PgState, running, starting, stopped, crashed, uninitialized, Directory, filled, inaccessible,
  Action, promote, copy_logical_slots, fatal, initialize, is_primary, pg_is_running, is_starting,
  is_healthy, pg_state, set_state, set_role, stop, data_directory, sysid, cb_called, call_nowait,
  sync_slots, rewind_is_needed, rewind_executed, rewind_failed, can_rewind_or_reinitialize,
  trigger_check_diverged_lsn, watchdog_disable, is_busy, scheduled_action, try_run,
  evaluate_scheduled_restart,
}
use otus_hightload.Ha.Cycle.Run.{
  msg_or, Proc, pure, raise, call, ask, act, self, become, ◌>>=◌, ◌>>◌,
}
use otus_hightload.Ha.Cycle.Lock.{has_lock, delete_leader_key, release_leader_key_voluntarily}
use otus_hightload.Ha.Cycle.Process.{process_healthy_cluster, process_unhealthy_cluster}
use otus_hightload.Ha.Cycle.Recover.{recover}
use otus_hightload.Ha.Cycle.Start.{sysid_valid, bootstrap}

is_promotion : Option Action → Bool
is_promotion (some promote) = true
is_promotion _ = false

-- the replication slots at the end of a pass
unfoldable pub keep_slots : String → Proc String
unfolding is_promotion
keep_slots ret = do
  action ← call scheduled_action
  let promoting = is_promotion action
  busy ← ask is_busy
  starts ← if not busy || promoting then ask is_starting else pure true
  if starts then pure ret else (do
    creates ← ask (sync_slots false)
    called ← ask cb_called
    if called then pure tt else (do
      leads ← if promoting then pure true else ask is_primary
      if leads then pure tt else act trigger_check_diverged_lsn
      act call_nowait)
    s ← self
    if not promoting && creates && is_some s.view.cluster.leader
        then (do
          started ← ask (try_run copy_logical_slots)
          pure (if started then "Copying logical slots {0} from the primary" else ret))
        else pure ret)

-- PostgreSQL is up
unfoldable pub run_healthy : Proc String
unfolding keep_slots
run_healthy = do
  s ← self
  ret ← if is_unlocked s.view.cluster then process_unhealthy_cluster else (do
    msg ← process_healthy_cluster
    restarts ← ask evaluate_scheduled_restart
    pure (if restarts then "restart initiated" else msg))
  keep_slots ret

-- `state in ('running', 'starting')`
is_up : PgState → Bool
is_up running = true
is_up starting = true
is_up _ = false

unfoldable pub recover_crashed : Proc String
unfolding is_up
recover_crashed = do
  state ← call pg_state
  if is_up state then act (set_state crashed) else pure tt
  recover

-- `rewind.failed or not rewind.executed and not (rewind.is_needed and ...)`
unfoldable pub stays_down : Proc Bool
stays_down = do
  failed ← ask rewind_failed
  executed ← if failed then pure false else ask rewind_executed
  needed ← if failed || executed then pure false else ask rewind_is_needed
  allowed ← if needed then ask can_rewind_or_reinitialize else pure false
  pure (failed || (not executed && not allowed))

unfoldable pub down_in_pause : Proc String
unfolding stays_down recover_crashed
down_in_pause = do
  act (set_state stopped)
  s ← self
  if has_lock s
      then delete_leader_key >> pure "removed leader lock because postgres is not running"
      else (do
        stays ← stays_down
        if stays then pure "postgres is not running" else recover_crashed)

unfoldable pub run_with_data : Proc String
unfolding run_healthy down_in_pause recover_crashed
run_with_data = do
  healthy ← ask is_healthy
  s ← self
  if healthy then run_healthy else if is_paused s.config then down_in_pause else recover_crashed

-- the identifiers of the cluster differ; none goes on
unfoldable pub mismatch : Proc (Option String)
mismatch = do
  s ← self
  if is_paused s.config
      then (if has_lock s
          then release_leader_key_voluntarily
            >> pure (some "released leader key voluntarily due to the system ID mismatch")
          else pure none)
      else raise (fatal "system ID mismatch")

-- no valid identifier is in the store
unfoldable pub adopt : Proc (Option String)
adopt = do
  s ← self
  called ←
      if is_unlocked s.view.cluster && not (is_paused s.config) then ask cb_called else pure true
  if called then pure none else (do
    runs ← ask pg_is_running
    leads ← if runs then ask is_primary else pure true
    if leads then ask (initialize (not (is_some s.view.cluster.initialize))) >> pure none else (do
      become (record s { join_aborted = true })
      raise
          (fatal "No initialize key in DCS and PostgreSQL is running as replica, aborting start")))

unfoldable pub check_sysid : Text → Proc (Option String)
unfolding mismatch adopt
check_sysid data_sysid = do
  s ← self
  if not (sysid_valid (some data_sysid))
      then pure (
          some
            "data dir for the cluster is not empty, but system ID is invalid; consider doing reinitialize")
      else if sysid_valid s.view.cluster.initialize
      then (if names s.view.cluster.initialize data_sysid then pure none else mismatch)
      else adopt

is_filled : Directory → Bool
is_filled filled = true
is_filled _ = false

is_accessible : Directory → Bool
is_accessible inaccessible = false
is_accessible _ = true

unfoldable pub run_without_data : Bool → Proc String
run_without_data accessible = do
  act (set_role uninitialized)
  act stop
  act watchdog_disable
  s ← self
  if has_lock s
      then release_leader_key_voluntarily
        >> pure "released leader key voluntarily as data dir {0} and currently leader"
      else if not accessible
      then pure "data directory is not accessible: {0}"
      else if is_paused s.config
      then pure "running with empty data directory"
      else bootstrap

unfoldable pub run_idle : Proc String
unfolding run_with_data run_without_data check_sysid is_filled is_accessible
run_idle = do
  directory ← call data_directory
  if is_filled directory
      then (do data_sysid ← call sysid; msg ← check_sysid data_sysid; msg_or msg run_with_data)
      else run_without_data (is_accessible directory)
