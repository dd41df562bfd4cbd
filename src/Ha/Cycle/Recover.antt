-- ===== src/Ha/Cycle/Recover.antt =====
-- `recover` and `post_recover` of .patroni/patroni/ha.py: the passes in which PostgreSQL is down.
use otus_hightload.GlobalConfig.{is_standby_cluster, is_synchronous_mode, primary_start_timeout}
use otus_hightload.Dcs.Cluster.{is_unlocked}
use otus_hightload.Ha.Cycle.Lock.{
  has_lock, load_cluster_from_dcs, update_lock, delete_leader_key, failover_possible,
}
use otus_hightload.Ha.Cycle.Demote.{demote, handle_crash_recovery, handle_rewind_or_reinitialize}
use otus_hightload.Prelude.{
  ◌==◌, Bool, true, false, not, ◌&&◌, Option, none, some, if◌then◌else◌, String,
}
use otus_hightload.Prelude.Int.{negsuc, ℤ, pos}
use otus_hightload.Dcs.Cluster.{is_unlocked}
use otus_hightload.Ha.Cycle.Run.{msg_or, Proc, pure, call, ask, act, self, become, ◌>>=◌, ◌>>◌}
use otus_hightload.Ha.Cycle.Calls.{
  pg_is_running, reset_rewind, set_role, set_standby_names, recovery_conf_exists, pg_role,
  trigger_check_diverged_lsn, control_state, pg_state, rewind_executed, try_run, watchdog_disable,
  Role, primary, standby_leader, demoted, PgState, crashed, ControlState, in_production,
  in_crash_recovery, shutting_down, shut_down, Action, start_primary, restart_after_failure,
  immediate,
}

unfoldable pub is_nonzero : ℤ → Bool
is_nonzero (pos n) = not (n == 0)
is_nonzero (negsuc n) = true

is_crashed : PgState → Bool
is_crashed crashed = true
is_crashed _ = false

-- `in ('in production', 'in crash recovery', 'shutting down', 'shut down')`
was_primary : ControlState → Bool
was_primary in_production = true
was_primary in_crash_recovery = true
was_primary shutting_down = true
was_primary shut_down = true
was_primary _ = false

-- `in ('in production', 'shutting down', 'in crash recovery')`
needs_crash_recovery : ControlState → Bool
needs_crash_recovery in_production = true
needs_crash_recovery in_crash_recovery = true
needs_crash_recovery shutting_down = true
needs_crash_recovery _ = false

-- `role in ('primary', 'master')`
unfoldable pub is_primary_now : Role → Bool
is_primary_now primary = true
is_primary_now _ = false

-- the start of PostgreSQL by `action`; it is noted whether that began
unfoldable pub start_by : Action → String → Proc (Option String)
start_by action msg = do
  started ← ask (try_run action)
  s ← self
  if started then become (record s { recovering = true }) else pure tt
  pure (if started then some msg else none)

-- "We know 100% that we were running as a primary a few moments ago"; none goes on
unfoldable pub restart_primary : ControlState → Bool → Proc (Option String)
unfolding start_by is_crashed was_primary
restart_primary control timed =
    if timed && was_primary control
    then (do
      state ← call pg_state
      if is_crashed state
          then (do
            role ← call pg_role
            if is_primary_now role
                then (do
                  exists ← ask recovery_conf_exists
                  if exists
                      then pure none
                      else start_by start_primary "starting primary after failure")
                else pure none)
          else pure none)
    else pure none

-- the end of `recover`
unfoldable pub restart_following : String → Proc String
unfolding start_by
restart_following msg = start_by restart_after_failure msg >> pure msg

-- where another node, or a remote one, leads
unfoldable pub recover_standby : Proc String
unfolding restart_following
recover_standby = do
  executed ← ask rewind_executed
  if executed then pure tt else act trigger_check_diverged_lsn
  msg ← handle_rewind_or_reinitialize
  msg_or msg (do
    s ← self
    if is_synchronous_mode s.config then act (set_standby_names false) else pure tt
    restart_following (
        if has_lock s
        then "starting as a standby leader because i had the session lock"
        else if is_standby_cluster s.config && is_unlocked s.view.cluster
        then "trying to follow a remote member because standby cluster is unhealthy"
        else "starting as a secondary"))

-- PostgreSQL is to be restarted in standby mode
unfoldable pub recover_as_standby : ControlState → Proc String
unfolding recover_standby needs_crash_recovery restart_following
recover_as_standby control = do
  act watchdog_disable
  msg ← if needs_crash_recovery control then handle_crash_recovery else pure none
  msg_or msg (do
    load_cluster_from_dcs
    s ← self
    if has_lock s && not (is_standby_cluster s.config)
        then act reset_rewind
          >> restart_following "starting as readonly because i had the session lock"
        else recover_standby)

-- from the reading of pg_controldata on; `timed` says that the lock was updated and the timeout is not 0
unfoldable pub recover_from : Bool → Proc String
unfolding recover_as_standby restart_primary
recover_from timed = do
  control ← call control_state
  msg ← restart_primary control timed
  msg_or msg (recover_as_standby control)

-- the lock was just updated
unfoldable pub recover_with_lock : Proc String
unfolding recover_from is_nonzero
recover_with_lock = do
  s ← self
  if is_nonzero (primary_start_timeout s.config) then recover_from true else (do
    possible ← failover_possible (pos 0)
    if possible
        then act watchdog_disable
          >> demote immediate
          >> pure "stopped PostgreSQL to fail over after a crash"
        else recover_from false)

unfoldable pub recover : Proc String
unfolding recover_with_lock recover_from
recover = do
  s ← self
  renewed ← if has_lock s then update_lock false else pure false
  if renewed then recover_with_lock else recover_from false

-- `role in ('master', 'primary', 'standby_leader')`
leads_role : Role → Bool
leads_role primary = true
leads_role standby_leader = true
leads_role _ = false

unfoldable pub post_recover : Proc (Option String)
unfolding leads_role
post_recover = do
  runs ← ask pg_is_running
  if runs then pure none else (do
    act watchdog_disable
    s ← self
    if has_lock s
        then (do
          role ← call pg_role
          if leads_role role then act (set_role demoted) else pure tt
          delete_leader_key
          pure (some "removed leader key after trying and failing to start postgres"))
        else pure (some "failed to start postgres"))
