-- ===== src/Ha/Cycle/Busy.antt =====
-- `handle_starting_instance` and `handle_long_action_in_progress` of .patroni/patroni/ha.py: the passes
-- in which PostgreSQL is starting or busy.
use otus_hightload.GlobalConfig.{is_paused, primary_start_timeout}
use otus_hightload.Ha.Cycle.Lock.{has_lock, update_lock, failover_possible}
use otus_hightload.Ha.Cycle.Demote.{demote}
use otus_hightload.Ha.Cycle.Process.{process_manual_failover_from_leader}
use otus_hightload.Prelude.{
  Bool, true, false, not, ◌&&◌, ◌||◌, Option, none, some, if◌then◌else◌, String,
}
use otus_hightload.Prelude.Int.{ℤ, pos, ltb_ℤ, ◌-ℤ◌}
use otus_hightload.Ha.Cycle.Run.{msg_or, Ha, Proc, pure, call, ask, act, self, become, ◌>>=◌, ◌>>◌}
use otus_hightload.Ha.Cycle.Calls.{
  pg_is_running, is_bootstrapping, set_state, cancel_cancellable, cancel_async, pg_role,
  terminate_starting, time, cancel_critical, check_for_startup, scheduled_action, time_in_state,
  running, stopped, Action, crash_recovery, start_primary, promote, restart, immediate,
  immediate_nolock,
}
use otus_hightload.Ha.Cycle.Recover.{is_primary_now, is_nonzero}

timeout_or : Option ℤ → ℤ → ℤ
timeout_or none default = default
timeout_or (some t) default = if is_nonzero t then t else default

-- `self._start_timeout or global_config.primary_start_timeout`
unfoldable pub start_timeout_of : Ha → ℤ
unfolding timeout_or
start_timeout_of s = timeout_or s.start_timeout (primary_start_timeout s.config)

-- a start under the lock, which was just updated
unfoldable pub wait_for_start : Proc String
wait_for_start = do
  s ← self
  spent ← call time_in_state
  if ltb_ℤ (pos 0) (start_timeout_of s -ℤ spent)
      then (do
        msg ← process_manual_failover_from_leader
        msg_or msg (pure "PostgreSQL is still starting up, {0:.0f} seconds until timeout"))
      else (do
        possible ← failover_possible (pos 0)
        if possible
            then demote immediate >> pure "stopped PostgreSQL because of startup timeout"
            else pure
                "primary start has timed out, but continuing to wait because failover is not possible")

unfoldable pub start_with_lock : Proc String
unfolding wait_for_start
start_with_lock = do
  renewed ← update_lock false
  if renewed
      then wait_for_start
      else demote immediate_nolock
        >> pure "stopped PostgreSQL while starting up because leader key was lost"

unfoldable pub no_start : Proc (Option String)
no_start = do
  s ← self
  become (record s { start_timeout = none })
  if is_paused s.config
      then (do
        runs ← ask pg_is_running
        act (set_state (if runs then running else stopped))
        pure none)
      else pure none

unfoldable pub handle_starting_instance : Proc (Option String)
unfolding no_start start_with_lock
handle_starting_instance = do
  starts ← ask check_for_startup
  s ← self
  if not starts || is_paused s.config
      then no_start
      else if has_lock s
      then (do msg ← start_with_lock; pure (some msg))
      else pure none

is_crash_recovery : Option Action → Bool
is_crash_recovery (some crash_recovery) = true
is_crash_recovery _ = false

is_promotion : Option Action → Bool
is_promotion (some promote) = true
is_promotion _ = false

-- `in ('restart', 'starting primary after failure')`
starts_postgres : Option Action → Bool
starts_postgres (some restart) = true
starts_postgres (some start_primary) = true
starts_postgres _ = false

-- an action in the background while the lock is held and was updated
unfoldable pub action_with_lock : Proc String
unfolding is_crash_recovery
action_with_lock = do
  action ← call scheduled_action
  s ← self
  expired ←
      if is_crash_recovery action
      then (do
        now ← call time
        let left = primary_start_timeout s.config -ℤ (pos now -ℤ pos s.crash_recovery_started)
        if ltb_ℤ (pos 0) left then pure false else failover_possible (pos 0))
      else pure false
  if expired
      then act cancel_cancellable
        >> demote immediate
        >> pure "terminated crash recovery because of startup timeout"
      else pure "updated leader lock during {0}"

-- the task of a start is cancelled; where it has its result, the postmaster is terminated
unfoldable pub stop_start : Option Action → Proc (Unit {0})
unfolding starts_postgres
stop_start action =
    if starts_postgres action
    then (do
      (cancelled, has_postmaster) ← call cancel_critical
      if not cancelled && has_postmaster then act terminate_starting else pure tt)
    else pure tt

-- an action in the background without the lock
unfoldable pub action_without_lock : Proc String
unfolding is_promotion stop_start
action_without_lock = do
  action ← call scheduled_action
  cancelled ← if is_promotion action then ask cancel_async else pure false
  if cancelled then act cancel_cancellable >> pure "lost leader before promote" else (do
    role ← call pg_role
    if is_primary_now role
        then stop_start action >> demote immediate_nolock >> pure "lost leader lock during {0}"
        else pure "{0} in progress")

unfoldable pub handle_long_action_in_progress : Proc String
unfolding action_with_lock action_without_lock
handle_long_action_in_progress = do
  s ← self
  renewed ← if has_lock s then update_lock false else pure false
  if renewed then action_with_lock else (do
    bootstraps ← ask is_bootstrapping
    s' ← self
    if not bootstraps && not (is_paused s'.config)
        then action_without_lock
        else pure "{0} in progress")
