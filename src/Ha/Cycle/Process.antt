-- ===== src/Ha/Cycle/Process.antt =====
-- `process_manual_failover_from_leader`, `process_unhealthy_cluster` and `process_healthy_cluster` of
-- .patroni/patroni/ha.py.
use otus_hightload.Prelude.{
  ℕ, ◌*◌, ◌/◌, Bool, true, false, not, ◌&&◌, ◌||◌, Option, none, some, is_some, if◌then◌else◌,
  String,
}
use otus_hightload.Prelude.Int.{ℤ, pos, ltb_ℤ, ◌-ℤ◌}
use otus_hightload.Prelude.Text.{Text}
use otus_hightload.Tags.{nofailover}
use otus_hightload.GlobalConfig.{is_paused, is_standby_cluster}
use otus_hightload.Dcs.SyncState.{is_set}
use otus_hightload.Dcs.Cluster.{Failover, is_requested}
use otus_hightload.Ha.Node.{names}
use otus_hightload.Ha.Cycle.Calls.{
  Role, standby_leader, immediate_nolock, demote_graceful, is_primary, pg_role, manual_failover,
  trigger_check_diverged_lsn, ensure_checkpoint_after_promote, time,
}
use otus_hightload.Ha.Cycle.Run.{msg_or, Proc, pure, call, ask, act, self, ◌>>=◌, ◌>>◌}
use otus_hightload.Ha.Cycle.Lock.{
  has_lock, load_cluster_from_dcs, acquire_lock, update_lock, delete_leader_key, failover_possible,
  healthiest,
}
use otus_hightload.Ha.Cycle.Lead.{enforce_primary_role}
use otus_hightload.Ha.Cycle.Demote.{run_async, demote}
use otus_hightload.Ha.Cycle.Follow.{follow}

-- whether a scheduled time has come, and whether it is stale
unfoldable pub is_early : ℕ → ℤ → ℕ → Bool
is_early loop_wait scheduled_at now = ltb_ℤ (pos loop_wait) (scheduled_at -ℤ pos now)

unfoldable pub is_stale : ℕ → ℤ → ℕ → Bool
is_stale loop_wait scheduled_at now =
    ltb_ℤ (scheduled_at -ℤ pos now) (pos 0 -ℤ pos (loop_wait * 3 / 2))

-- `should_run_scheduled_action`, without the wait for the last seconds
unfoldable pub should_run_scheduled_action : Option ℤ → Proc (Unit {0}) → Proc Bool
should_run_scheduled_action none cleanup = pure false
should_run_scheduled_action (some scheduled_at) cleanup = do
  s ← self
  if is_paused s.config then pure false else (do
    now ← call time
    if is_early s.loop_wait scheduled_at now
        then pure false
        else if is_stale s.loop_wait scheduled_at now
        then cleanup >> pure false
        else pure true)

-- `not failover.scheduled_at`, or it is time
unfoldable pub is_time : Failover → Proc Bool
is_time f =
    if is_some f.scheduled_at
    then should_run_scheduled_action f.scheduled_at (act (manual_failover none none f.version))
    else pure true

-- whether the request is one that this leader grants
unfoldable pub grants : Failover → Proc Bool
grants f = do
  s ← self
  if (not (is_set f.leader) || names f.leader s.name)
        && not (is_set f.candidate && names f.candidate s.name)
        && not (not (is_set f.candidate) && is_paused s.config)
      then failover_possible (pos 0)
      else pure false

-- once the request is due
unfoldable pub act_on_failover : Failover → Proc (Option String)
unfolding grants
act_on_failover f = do
  granted ← grants f
  if granted
      then (do msg ← run_async demote_graceful "{0}: demoting myself"; pure (some msg))
      else act (manual_failover none none f.version) >> pure none

unfoldable pub leader_failover : Option Failover → Proc (Option String)
unfolding is_time act_on_failover
leader_failover none = pure none
leader_failover (some f) = do
  s ← self
  leads ← if is_requested f && is_paused s.config then ask is_primary else pure true
  if not (is_requested f) || not leads
      then pure none
      else (do due ← is_time f; if due then act_on_failover f else pure none)

unfoldable pub process_manual_failover_from_leader : Proc (Option String)
unfolding leader_failover
process_manual_failover_from_leader = do s ← self; leader_failover s.view.cluster.failover

-- the `/failover` key once the lock is acquired
unfoldable pub answer_failover : Option Failover → Proc (Unit {0})
answer_failover none = pure tt
answer_failover (some f) = do
  s ← self
  if not (is_requested f)
      then pure tt
      else if is_paused s.config && is_set f.leader && is_set f.candidate
      then act (manual_failover f.candidate f.scheduled_at f.version)
      else act (manual_failover none none none)

unfoldable pub enforce_role : String → String → String → Proc String
enforce_role standby_message message promote_message = do
  s ← self
  if is_standby_cluster s.config
      then follow "cannot be a real primary in standby cluster" standby_message true
      else enforce_primary_role message promote_message

unfoldable pub win : Proc String
unfolding answer_failover enforce_role
win = do
  s ← self
  answer_failover s.view.cluster.failover
  load_cluster_from_dcs
  enforce_role "promoted self to a standby leader by acquiring session lock"
      "acquired session lock as a leader" "promoted self to leader by acquiring session lock"

is_failover_requested : Option Failover → Bool
is_failover_requested none = false
is_failover_requested (some f) = is_requested f

unfoldable pub lose : Proc String
unfolding is_failover_requested
lose = do
  s ← self
  if is_failover_requested s.view.cluster.failover || nofailover s.tags
      then act trigger_check_diverged_lsn
      else pure tt
  if nofailover s.tags
      then follow "demoting self because I am not allowed to become primary"
          "following a different leader because I am not allowed to promote" true
      else follow "demoting self because i am not the healthiest node"
          "following a different leader because i am not the healthiest node" true

unfoldable pub process_unhealthy_cluster : Proc String
unfolding win lose
process_unhealthy_cluster = do
  wins ← healthiest
  if wins
      then (do
        acquired ← acquire_lock
        if acquired
            then win
            else follow "demoted self after trying and failing to obtain lock"
                "following new leader after trying and failing to obtain lock" true)
      else lose

-- the lock could not be renewed
unfoldable pub lost_lock : Proc String
lost_lock = do
  leads ← ask is_primary
  s ← self
  if leads
      then (if is_paused s.config
          then pure "continue to run as primary after failing to update leader lock in DCS"
          else demote immediate_nolock
            >> pure "demoted self because failed to update leader lock in DCS")
      else pure "not promoting because failed to update leader lock in DCS"

is_standby_role : Role → Bool
is_standby_role standby_leader = true
is_standby_role _ = false

-- the lock has been renewed
unfoldable pub keep_lock : Proc String
unfolding is_standby_role enforce_role
keep_lock = do
  msg ← process_manual_failover_from_leader
  msg_or msg (do
    act ensure_checkpoint_after_promote
    s ← self
    role ← if is_standby_cluster s.config then call pg_role else pure standby_leader
    enforce_role
        (if is_standby_role role
          then "no action. I am ({0}), the standby leader with the lock"
          else "promoted self to a standby leader because i had the session lock")
        "no action. I am ({0}), the leader with the lock"
        "promoted self to leader because I had the session lock")

unfoldable pub renew_lock : Proc String
unfolding keep_lock lost_lock
renew_lock = do renewed ← update_lock true; if renewed then keep_lock else lost_lock

candidate_is : Option Failover → Text → Bool
candidate_is none name = false
candidate_is (some f) name = is_requested f && names f.candidate name

unfoldable pub hold_lock : Proc String
unfolding renew_lock candidate_is
hold_lock = do
  s ← self
  leads ← if is_paused s.config then ask is_primary else pure true
  if leads
      then renew_lock
      else if candidate_is s.view.cluster.failover s.name
      then pure "waiting to become primary after promote..."
      else if not (is_standby_cluster s.config)
      then delete_leader_key
        >> pure "removed leader lock because postgres is not running as primary"
      else renew_lock

unfoldable pub process_healthy_cluster : Proc String
unfolding hold_lock
process_healthy_cluster = do
  s ← self
  if has_lock s
      then hold_lock
      else if is_standby_cluster s.config
      then follow "cannot be a real primary in a standby cluster"
          "no action. I am ({0}), a secondary, and following a standby leader ({1})" false
      else follow "demoting self because I do not have the lock and I was a leader"
          "no action. I am ({0}), a secondary, and following a leader ({1})" false
