-- ===== src/Ha/Cycle/Promotion/Quiet.antt =====
-- The procedures that neither promote PostgreSQL nor restart it as a primary.
use otus_hightload.Prelude.{Bool, Option, none, some, String}
use otus_hightload.Prelude.Int.{ℤ}
use otus_hightload.Prelude.Text.{Text}
use otus_hightload.Dcs.Cluster.{Failover}
use otus_hightload.Ha.Cycle.Calls.{
  Failure, DemoteMode, dcs_error, postgres_error, fatal, other_exception,
}
use otus_hightload.Ha.Cycle.Rules.{keeps_rules}
use otus_hightload.Ha.Cycle.Lock.{
  false_unless_dcs, acquire_lock, update_lock, delete_leader_key, release_leader_key_voluntarily,
}
use otus_hightload.Ha.Cycle.Demote.{on_shutdown, stopped_clean, demote}
use otus_hightload.Ha.Cycle.Follow.{follow}
use otus_hightload.Ha.Cycle.Lead.{refuse_without_watchdog, cancel_promotion}
use otus_hightload.Ha.Cycle.Process.{
  leader_failover, process_manual_failover_from_leader, lose, lost_lock,
}
use otus_hightload.Ha.Cycle.Recover.{post_recover}
use otus_hightload.Ha.Cycle.Busy.{
  wait_for_start, start_with_lock, handle_starting_instance, action_with_lock, action_without_lock,
  handle_long_action_in_progress,
}
use otus_hightload.Ha.Cycle.Start.{begin_post_bootstrap, post_bootstrap}
use otus_hightload.Ha.Cycle.Idle.{keep_slots, mismatch, adopt, check_sysid, run_without_data}
use otus_hightload.Ha.Cycle.Main.{end_recovery, demote_offline_now, lead_offline, handle_dcs_error}
use otus_hightload.Ha.Cycle.Plain.Lock.{
  failover_possible-IsPlain, load_cluster_from_dcs-IsPlain, set_is_leader-IsPlain,
}
use otus_hightload.Ha.Cycle.Plain.Follow.{
  follow_paused-IsPlain, follow_standby-IsPlain, restart_demoted-IsPlain, run_async-IsPlain,
  upstream_after-IsPlain,
}
use otus_hightload.Ha.Cycle.Plain.Process.{act_on_failover-IsPlain, is_time-IsPlain}
use otus_hightload.Ha.Cycle.Plain.Recover.{
  bootstrap-IsPlain, cancel_initialization-IsPlain, no_start-IsPlain, stop_start-IsPlain,
  take_over_new-IsPlain,
}
use otus_hightload.Ha.Cycle.Promotion.{IsQuiet, quiet-Fits, plain-IsQuiet}

pub false_unless_dcs-IsQuiet : (e : Failure) → IsQuiet (false_unless_dcs e)
unfolding false_unless_dcs
false_unless_dcs-IsQuiet dcs_error = search (keeps_rules)
false_unless_dcs-IsQuiet postgres_error = search (keeps_rules)
false_unless_dcs-IsQuiet (fatal m) = search (keeps_rules)
false_unless_dcs-IsQuiet other_exception = search (keeps_rules)

pub acquire_lock-IsQuiet : IsQuiet acquire_lock
unfolding acquire_lock
acquire_lock-IsQuiet =
    search (keeps_rules, quiet-Fits, plain-IsQuiet, set_is_leader-IsPlain, false_unless_dcs-IsQuiet)
      depth 40 fits 6000

pub update_lock-IsQuiet : (a : Bool) → IsQuiet (update_lock a)
unfolding update_lock
update_lock-IsQuiet a =
    search (keeps_rules, quiet-Fits, plain-IsQuiet, set_is_leader-IsPlain, false_unless_dcs-IsQuiet)
      depth 40 fits 6000

pub delete_leader_key-IsQuiet : IsQuiet delete_leader_key
unfolding delete_leader_key
delete_leader_key-IsQuiet =
    search (keeps_rules, quiet-Fits, plain-IsQuiet, set_is_leader-IsPlain) depth 40 fits 6000

pub release_leader_key_voluntarily-IsQuiet : IsQuiet release_leader_key_voluntarily
unfolding release_leader_key_voluntarily
release_leader_key_voluntarily-IsQuiet =
    search (keeps_rules, quiet-Fits, plain-IsQuiet, delete_leader_key-IsQuiet) depth 40 fits 6000

pub on_shutdown-IsQuiet : (a : ℤ) → IsQuiet (on_shutdown a)
unfolding on_shutdown
on_shutdown-IsQuiet a =
    search
      (
        keeps_rules, quiet-Fits, plain-IsQuiet, failover_possible-IsPlain,
        release_leader_key_voluntarily-IsQuiet,
      )
      depth 40 fits 6000

pub stopped_clean-IsQuiet : (a : DemoteMode) (b : Option ℤ) → IsQuiet (stopped_clean a b)
unfolding stopped_clean
stopped_clean-IsQuiet a none = search (keeps_rules) depth 40 fits 6000
stopped_clean-IsQuiet a (some b) =
    search (keeps_rules, plain-IsQuiet, on_shutdown-IsQuiet) depth 40 fits 6000

pub demote-IsQuiet : (a : DemoteMode) → IsQuiet (demote a)
unfolding demote
demote-IsQuiet a =
    search
      (
        keeps_rules, quiet-Fits, plain-IsQuiet, set_is_leader-IsPlain, upstream_after-IsPlain,
        restart_demoted-IsPlain, release_leader_key_voluntarily-IsQuiet, stopped_clean-IsQuiet,
      )
      depth 40 fits 6000

pub follow-IsQuiet : (a : String) (b : String) (c : Bool) → IsQuiet (follow a b c)
unfolding follow
follow-IsQuiet a b c =
    search
      (
        keeps_rules, quiet-Fits, plain-IsQuiet, load_cluster_from_dcs-IsPlain,
        follow_standby-IsPlain, follow_paused-IsPlain, demote-IsQuiet,
      )
      depth 40 fits 6000

pub refuse_without_watchdog-IsQuiet : IsQuiet refuse_without_watchdog
unfolding refuse_without_watchdog
refuse_without_watchdog-IsQuiet =
    search
      (
        keeps_rules, quiet-Fits, plain-IsQuiet, release_leader_key_voluntarily-IsQuiet,
        demote-IsQuiet,
      )
      depth 40 fits 6000

pub cancel_promotion-IsQuiet : IsQuiet cancel_promotion
unfolding cancel_promotion
cancel_promotion-IsQuiet =
    search (keeps_rules, quiet-Fits, plain-IsQuiet, release_leader_key_voluntarily-IsQuiet) depth 40
      fits 6000

pub leader_failover-IsQuiet : (a : Option Failover) → IsQuiet (leader_failover a)
unfolding leader_failover
leader_failover-IsQuiet none = search (keeps_rules) depth 40 fits 6000
leader_failover-IsQuiet (some a) =
    search (keeps_rules, quiet-Fits, plain-IsQuiet, is_time-IsPlain, act_on_failover-IsPlain) depth
      40 fits 6000

pub process_manual_failover_from_leader-IsQuiet : IsQuiet process_manual_failover_from_leader
unfolding process_manual_failover_from_leader
process_manual_failover_from_leader-IsQuiet =
    search (keeps_rules, plain-IsQuiet, leader_failover-IsQuiet) depth 40 fits 6000

pub lose-IsQuiet : IsQuiet lose
unfolding lose
lose-IsQuiet = search (keeps_rules, quiet-Fits, plain-IsQuiet, follow-IsQuiet) depth 40 fits 6000

pub lost_lock-IsQuiet : IsQuiet lost_lock
unfolding lost_lock
lost_lock-IsQuiet =
    search (keeps_rules, quiet-Fits, plain-IsQuiet, demote-IsQuiet) depth 40 fits 6000

pub post_recover-IsQuiet : IsQuiet post_recover
unfolding post_recover
post_recover-IsQuiet =
    search (keeps_rules, quiet-Fits, plain-IsQuiet, delete_leader_key-IsQuiet) depth 40 fits 6000

pub wait_for_start-IsQuiet : IsQuiet wait_for_start
unfolding wait_for_start
wait_for_start-IsQuiet =
    search
      (
        keeps_rules, quiet-Fits, plain-IsQuiet, failover_possible-IsPlain, demote-IsQuiet,
        process_manual_failover_from_leader-IsQuiet,
      )
      depth 40 fits 6000

pub start_with_lock-IsQuiet : IsQuiet start_with_lock
unfolding start_with_lock
start_with_lock-IsQuiet =
    search (keeps_rules, plain-IsQuiet, update_lock-IsQuiet, demote-IsQuiet, wait_for_start-IsQuiet)
      depth 40 fits 6000

pub handle_starting_instance-IsQuiet : IsQuiet handle_starting_instance
unfolding handle_starting_instance
handle_starting_instance-IsQuiet =
    search (keeps_rules, quiet-Fits, plain-IsQuiet, no_start-IsPlain, start_with_lock-IsQuiet) depth
      40 fits 6000

pub action_with_lock-IsQuiet : IsQuiet action_with_lock
unfolding action_with_lock
action_with_lock-IsQuiet =
    search (keeps_rules, quiet-Fits, plain-IsQuiet, failover_possible-IsPlain, demote-IsQuiet) depth
      40 fits 6000

pub action_without_lock-IsQuiet : IsQuiet action_without_lock
unfolding action_without_lock
action_without_lock-IsQuiet =
    search (keeps_rules, quiet-Fits, plain-IsQuiet, stop_start-IsPlain, demote-IsQuiet) depth 40
      fits 6000

pub handle_long_action_in_progress-IsQuiet : IsQuiet handle_long_action_in_progress
unfolding handle_long_action_in_progress
handle_long_action_in_progress-IsQuiet =
    search
      (
        keeps_rules, quiet-Fits, plain-IsQuiet, update_lock-IsQuiet, action_with_lock-IsQuiet,
        action_without_lock-IsQuiet,
      )
      depth 40 fits 6000

pub begin_post_bootstrap-IsQuiet : IsQuiet begin_post_bootstrap
unfolding begin_post_bootstrap
begin_post_bootstrap-IsQuiet =
    search (keeps_rules, quiet-Fits, plain-IsQuiet, run_async-IsPlain) depth 40 fits 6000

pub post_bootstrap-IsQuiet : IsQuiet post_bootstrap
unfolding post_bootstrap
post_bootstrap-IsQuiet =
    search
      (
        keeps_rules, quiet-Fits, plain-IsQuiet, cancel_initialization-IsPlain,
        take_over_new-IsPlain, begin_post_bootstrap-IsQuiet,
      )
      depth 40 fits 6000

pub keep_slots-IsQuiet : (a : String) → IsQuiet (keep_slots a)
unfolding keep_slots
keep_slots-IsQuiet a = search (keeps_rules, quiet-Fits, plain-IsQuiet) depth 40 fits 6000

pub mismatch-IsQuiet : IsQuiet mismatch
unfolding mismatch
mismatch-IsQuiet =
    search (keeps_rules, plain-IsQuiet, release_leader_key_voluntarily-IsQuiet) depth 40 fits 6000

pub adopt-IsQuiet : IsQuiet adopt
unfolding adopt
adopt-IsQuiet = search (keeps_rules, quiet-Fits, plain-IsQuiet) depth 40 fits 6000

pub check_sysid-IsQuiet : (a : Text) → IsQuiet (check_sysid a)
unfolding check_sysid
check_sysid-IsQuiet a =
    search (keeps_rules, plain-IsQuiet, mismatch-IsQuiet, adopt-IsQuiet) depth 40 fits 6000

pub run_without_data-IsQuiet : (a : Bool) → IsQuiet (run_without_data a)
unfolding run_without_data
run_without_data-IsQuiet a =
    search
      (
        keeps_rules, quiet-Fits, plain-IsQuiet, bootstrap-IsPlain,
        release_leader_key_voluntarily-IsQuiet,
      )
      depth 40 fits 6000

pub end_recovery-IsQuiet : IsQuiet end_recovery
unfolding end_recovery
end_recovery-IsQuiet =
    search (keeps_rules, quiet-Fits, plain-IsQuiet, post_recover-IsQuiet) depth 40 fits 6000

pub demote_offline_now-IsQuiet : IsQuiet demote_offline_now
unfolding demote_offline_now
demote_offline_now-IsQuiet =
    search (keeps_rules, quiet-Fits, plain-IsQuiet, demote-IsQuiet) depth 40 fits 6000

pub lead_offline-IsQuiet : IsQuiet lead_offline
unfolding lead_offline
lead_offline-IsQuiet =
    search
      (keeps_rules, quiet-Fits, plain-IsQuiet, set_is_leader-IsPlain, demote_offline_now-IsQuiet)
      depth 40 fits 6000

pub handle_dcs_error-IsQuiet : IsQuiet handle_dcs_error
unfolding handle_dcs_error
handle_dcs_error-IsQuiet =
    search (keeps_rules, quiet-Fits, plain-IsQuiet, lead_offline-IsQuiet) depth 40 fits 6000
