-- ===== src/Scenarios/Pass.antt =====
-- A pass of the HA loop at a replica.
use otus_hightload.Prelude.{◌≡◌, refl, if◌then◌else◌, false, none}
use otus_hightload.Prelude.Text.{codes, text_eq}
use otus_hightload.Py.{get, end}
use otus_hightload.Ha.Cycle.Calls.{View}
use otus_hightload.Ha.Cycle.Run.{Ha, Safe}
use otus_hightload.GlobalConfig.{is_paused, check_mode}
use otus_hightload.Utils.{parse_bool}
use otus_hightload.Dcs.Cluster.{is_unlocked}
use otus_hightload.Ha.Cycle.Process.{process_healthy_cluster, process_unhealthy_cluster}
use otus_hightload.Ha.Cycle.Exposure.{Watch, watch_after, Free, IsCovered}
use otus_hightload.Ha.Cycle.Exposure.Pass.{no_primary_without_lock}
use otus_hightload.Ha.Cycle.Main.{run_cycle}
use otus_hightload.Ha.Cycle.Promotion.{lock_after, MayLead}
use otus_hightload.Ha.Cycle.Promotion.Pass.{promotes_with_lock}
use otus_hightload.Scenarios.Standbys.{cluster}

abbrev view : View
view = record { cluster = cluster; config = none; has_workers = false }

abbrev replica_b : Ha
replica_b = record {
  name = codes "b";
  tags = end;
  ttl = 30;
  loop_wait = 10;
  config = end;
  view = view;
  old_view = view;
  leader_expiry = 0;
  was_paused = false;
  recovering = false;
  join_aborted = false;
  crash_recovery_started = 0;
  start_timeout = none;
  released_leader_key = 0;
}

promotes_with_lock_example :
    Safe lock_after MayLead (λ _ _ _. Unit) (λ _ _ _. Unit) (run_cycle replica_b) false
promotes_with_lock_example = promotes_with_lock replica_b false

abbrev unasked : Watch
unasked = record { held = false; leads = false; stopped = false }

unpaused : is_paused end ≡ false
unfolding is_paused check_mode get parse_bool text_eq
unpaused = refl

no_primary_without_lock_example :
    Safe watch_after Free
      (λ _ _ w'. IsCovered w')
      (λ _ _ _. Unit)
      ((if is_unlocked replica_b.view.cluster
          then process_unhealthy_cluster
          else process_healthy_cluster)
        replica_b)
      unasked
no_primary_without_lock_example = no_primary_without_lock replica_b unasked unpaused refl
