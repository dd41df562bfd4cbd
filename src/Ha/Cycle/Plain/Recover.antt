-- ===== src/Ha/Cycle/Plain/Recover.antt =====
-- The plain procedures of Ha/Cycle/Recover and Ha/Cycle/Busy and Ha/Cycle/Start.
use otus_hightload.Ha.Cycle.Calls.{Action, ControlState, try_run, asks}
use otus_hightload.Prelude.{Option, String}
use otus_hightload.Py.{Fields}
use otus_hightload.Ha.Cycle.Plain.{IsPlain, IsPlainCall, plain_rules}
use otus_hightload.Ha.Cycle.Recover.{
  start_by, recover_as_standby, recover_standby, restart_following,
}
use otus_hightload.Ha.Cycle.Busy.{no_start, stop_start}
use otus_hightload.Ha.Cycle.Start.{
  bootstrap, bootstrap_new, bootstrap_replica, cancel_initialization, take_over_new,
}
use otus_hightload.Ha.Cycle.Plain.Lock.{load_cluster_from_dcs-IsPlain, set_is_leader-IsPlain}
use otus_hightload.Ha.Cycle.Plain.Follow.{
  handle_crash_recovery-IsPlain, handle_rewind_or_reinitialize-IsPlain, run_async-IsPlain,
}

pub start_by-IsPlain :
    (o : Fields) (a : Action) (msg : String)
    → IsPlainCall (asks (try_run a))
    → IsPlain o (start_by a msg)
unfolding start_by
start_by-IsPlain o a msg h = search (plain_rules) depth 40

pub restart_following-IsPlain : (o : Fields) (a : String) → IsPlain o (restart_following a)
unfolding restart_following
restart_following-IsPlain o a = search (plain_rules, start_by-IsPlain) depth 40 fits 6000

pub recover_standby-IsPlain : (o : Fields) → IsPlain o recover_standby
unfolding recover_standby
recover_standby-IsPlain o =
    search (plain_rules, handle_rewind_or_reinitialize-IsPlain, restart_following-IsPlain) depth 40
      fits 6000

pub recover_as_standby-IsPlain : (o : Fields) (a : ControlState) → IsPlain o (recover_as_standby a)
unfolding recover_as_standby
recover_as_standby-IsPlain o a =
    search
      (
        plain_rules, load_cluster_from_dcs-IsPlain, handle_crash_recovery-IsPlain,
        restart_following-IsPlain, recover_standby-IsPlain,
      )
      depth 40 fits 6000

pub no_start-IsPlain : (o : Fields) → IsPlain o no_start
unfolding no_start
no_start-IsPlain o = search (plain_rules) depth 40 fits 6000

pub stop_start-IsPlain : (o : Fields) (a : Option Action) → IsPlain o (stop_start a)
unfolding stop_start
stop_start-IsPlain o a = search (plain_rules) depth 40 fits 6000

pub cancel_initialization-IsPlain : (o : Fields) → IsPlain o cancel_initialization
unfolding cancel_initialization
cancel_initialization-IsPlain o = search (plain_rules) depth 40 fits 6000

pub bootstrap_new-IsPlain : (o : Fields) → IsPlain o bootstrap_new
unfolding bootstrap_new
bootstrap_new-IsPlain o = search (plain_rules, run_async-IsPlain) depth 40 fits 6000

pub bootstrap_replica-IsPlain : (o : Fields) → IsPlain o bootstrap_replica
unfolding bootstrap_replica
bootstrap_replica-IsPlain o = search (plain_rules, run_async-IsPlain) depth 40 fits 6000

pub bootstrap-IsPlain : (o : Fields) → IsPlain o bootstrap
unfolding bootstrap
bootstrap-IsPlain o =
    search (plain_rules, bootstrap_new-IsPlain, bootstrap_replica-IsPlain) depth 40 fits 6000

pub take_over_new-IsPlain : (o : Fields) → IsPlain o take_over_new
unfolding take_over_new
take_over_new-IsPlain o =
    search
      (
        plain_rules, set_is_leader-IsPlain, load_cluster_from_dcs-IsPlain,
        cancel_initialization-IsPlain,
      )
      depth 40 fits 6000
