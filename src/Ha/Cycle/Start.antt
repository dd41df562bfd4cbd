-- ===== src/Ha/Cycle/Start.antt =====
-- `bootstrap`, `post_bootstrap` and `cancel_initialization` of .patroni/patroni/ha.py, and the checks
-- of the system identifier.
use otus_hightload.Prelude.{
  ℕ, Bool, true, false, not, ◌&&◌, ◌||◌, leb, Option, none, some, is_some, if◌then◌else◌, String,
  all, length,
}
use otus_hightload.Prelude.Text.{Text, non_empty}
use otus_hightload.Tags.{nofailover}
use otus_hightload.GlobalConfig.{
  is_standby_cluster, is_synchronous_mode, is_synchronous_mode_strict,
}
use otus_hightload.Dcs.Cluster.{is_unlocked}
use otus_hightload.Ha.Cycle.Lock.{set_is_leader, load_cluster_from_dcs}
use otus_hightload.Ha.Cycle.Demote.{run_async}
use otus_hightload.Ha.Cycle.Calls.{
  fatal, TaskResult, is_false, no_result, stop, move_data_directory, set_bootstrapping, reset_async,
  bootstrap_standby, bootstrap_cluster, bootstrap_from, bootstrap_without_leader, bootstrap_done,
  can_bootstrap_without_leader, has_clone_member, has_bootstrap_section, initialize, is_primary,
  set_role, primary, watchdog_activate, ensure_checkpoint_after_promote, set_config_value,
  take_leader, set_standby_names, call_nowait, async_result, pg_is_running, cancel_initialize,
}
use otus_hightload.Ha.Cycle.Run.{Proc, pure, raise, call, ask, act, self, ◌>>=◌, ◌>>◌}

is_digit : ℕ → Bool
is_digit c = leb 48 c && leb c 57

-- `sysid_valid`; without a value Python reads the text `None`
unfoldable pub sysid_valid : Option Text → Bool
unfolding is_digit
sysid_valid none = false
sysid_valid (some sysid) = leb 10 (length sysid) && all is_digit sysid

unfoldable pub cancel_initialization : Proc (Unit {0})
cancel_initialization = do
  act cancel_initialize
  act stop
  act move_data_directory
  raise (fatal "Failed to bootstrap cluster")

-- the node has the initialize key
unfoldable pub bootstrap_new : Proc String
bootstrap_new = do
  act (set_bootstrapping true)
  act reset_async
  s ← self
  if is_standby_cluster s.config
      then run_async bootstrap_standby "trying to bootstrap a new standby leader"
      else run_async bootstrap_cluster "trying to bootstrap a new cluster"

is_empty_text : Option Text → Bool
is_empty_text none = false
is_empty_text (some t) = not (non_empty t)

-- from the search for a member to clone on
unfoldable pub bootstrap_replica : Proc String
unfolding is_empty_text
bootstrap_replica = do
  s ← self
  clones ← ask has_clone_member
  if not (is_unlocked s.view.cluster) && clones
      then run_async bootstrap_from "trying to bootstrap {0}"
      else (do
        can ← ask can_bootstrap_without_leader
        if can && not (is_empty_text s.view.cluster.initialize)
            then run_async bootstrap_without_leader "trying to bootstrap (without leader)"
            else pure "waiting for {0}leader to bootstrap")

unfoldable pub bootstrap : Proc String
unfolding bootstrap_new bootstrap_replica
bootstrap = do
  s ← self
  may ←
      if is_unlocked s.view.cluster
        && not (is_some s.view.cluster.initialize)
        && not (nofailover s.tags)
      then ask has_bootstrap_section
      else pure false
  if may
      then (do
        won ← ask (initialize true)
        if won then bootstrap_new else pure "failed to acquire initialize lock")
      else bootstrap_replica

is_failed : TaskResult → Bool
is_failed is_false = true
is_failed _ = false

is_missing : TaskResult → Bool
is_missing no_result = true
is_missing _ = false

-- post_bootstrap has not run yet
unfoldable pub begin_post_bootstrap : Proc String
begin_post_bootstrap = do
  leads ← ask is_primary
  if leads
      then act (set_role primary) >> run_async bootstrap_done "running post_bootstrap"
      else pure "waiting for end of recovery after bootstrap"

-- the new cluster is running
unfoldable pub take_over_new : Proc String
take_over_new = do
  act (set_bootstrapping false)
  activated ← ask watchdog_activate
  if activated then pure tt else cancel_initialization
  act ensure_checkpoint_after_promote
  s ← self
  ask (initialize (not (is_some s.view.cluster.initialize)))
  act set_config_value
  act take_leader
  set_is_leader true
  if is_synchronous_mode s.config
      then act (set_standby_names (is_synchronous_mode_strict s.config))
      else pure tt
  act call_nowait
  load_cluster_from_dcs
  pure "initialized a new cluster"

unfoldable pub post_bootstrap : Proc String
unfolding is_failed is_missing begin_post_bootstrap take_over_new
post_bootstrap = do
  result ← call async_result
  runs ← ask pg_is_running
  if not runs || is_failed result then cancel_initialization else pure tt
  if is_missing result then begin_post_bootstrap else take_over_new
