-- ===== src/Ha/Cycle/Lead.antt =====
-- `enforce_primary_role` of .patroni/patroni/ha.py: what the holder of the lock does to be a primary.
use otus_hightload.Prelude.{Bool, true, false, not, if◌then◌else◌, String}
use otus_hightload.GlobalConfig.{is_paused, is_synchronous_mode, is_synchronous_mode_strict}
use otus_hightload.Ha.Cycle.Calls.{
  Role, primary, promoted, TaskResult, no_result, is_false, immediate, promote, is_primary, pg_role,
  set_role, set_standby_names, write_sync_state, process_sync_replication, update_cluster_history,
  sync_meta_data, watchdog_is_running, watchdog_activate, async_result, reset_async,
  set_failsafe_active, time, try_run,
}
use otus_hightload.Ha.Cycle.Run.{Proc, pure, call, ask, act, self, become, ◌>>=◌, ◌>>◌}
use otus_hightload.Ha.Cycle.Lock.{release_leader_key_voluntarily}
use otus_hightload.Ha.Cycle.Demote.{demote}

-- `role in ('master', 'promoted', 'primary')`
unfoldable pub is_primary_role : Role → Bool
is_primary_role primary = true
is_primary_role promoted = true
is_primary_role _ = false

is_failed : TaskResult → Bool
is_failed is_false = true
is_failed _ = false

-- `watchdog.pg_is_running or watchdog.activate()`, which is not asked in a pause
unfoldable pub watchdog_ready : Proc Bool
watchdog_ready = do
  s ← self
  runs ← if is_paused s.config then pure true else ask watchdog_is_running
  if runs then pure true else ask watchdog_activate

unfoldable pub refuse_without_watchdog : Proc String
refuse_without_watchdog = do
  leads ← ask is_primary
  if leads
      then demote immediate >> pure "Demoting self because watchdog could not be activated"
      else release_leader_key_voluntarily
        >> pure "Not promoting self because watchdog could not be activated"

-- whether the pre-promote script failed, which is not asked in a pause
unfoldable pub script_failed : Proc Bool
unfolding is_failed
script_failed = do
  s ← self
  result ← if is_paused s.config then pure no_result else call async_result
  pure (is_failed result)

unfoldable pub cancel_promotion : Proc String
cancel_promotion = do
  now ← call time
  s ← self
  become (record s { released_leader_key = now })
  release_leader_key_voluntarily
  act reset_async
  pure "Promotion cancelled because the pre-promote script failed"

-- whether the `/sync` key names this node, where that is asked for
unfoldable pub claim_sync : Proc Bool
claim_sync = do
  s ← self
  if is_synchronous_mode s.config
      then (do
        written ← ask (write_sync_state s.view.cluster.sync.version)
        if written
            then act (set_standby_names (is_synchronous_mode_strict s.config)) >> pure true
            else pure false)
      else pure true

unfoldable pub promote_node : String → Proc String
unfolding claim_sync
promote_node promote_message = do
  claimed ← claim_sync
  if not claimed
      then pure
          "Postponing promotion because synchronous replication state was updated by somebody else"
      else (do
        role ← call pg_role
        if is_primary_role role then pure promote_message else (do
          act (set_failsafe_active false)
          act reset_async
          ask (try_run promote)
          pure promote_message))

-- from `if self.state_handler.is_primary()` on
unfoldable pub lead : String → String → Proc String
unfolding promote_node
lead message promote_message = do
  leads ← ask is_primary
  if leads
      then (do
        act (set_role primary)
        act process_sync_replication
        act update_cluster_history
        act sync_meta_data
        pure message)
      else (do
        role ← call pg_role
        if is_primary_role role
            then act process_sync_replication >> pure message
            else promote_node promote_message)

unfoldable pub enforce_primary_role : String → String → Proc String
unfolding watchdog_ready refuse_without_watchdog script_failed cancel_promotion lead
enforce_primary_role message promote_message = do
  ready ← watchdog_ready
  if not ready then refuse_without_watchdog else (do
    failed ← script_failed
    if failed then cancel_promotion else lead message promote_message)
