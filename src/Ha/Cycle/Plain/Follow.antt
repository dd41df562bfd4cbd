-- ===== src/Ha/Cycle/Plain/Follow.antt =====
-- The plain procedures of Ha/Cycle/Demote and Ha/Cycle/Follow.
use otus_hightload.Ha.Cycle.Calls.{Action, DemoteMode, Upstream, Role, try_run, asks}
use otus_hightload.Prelude.{Bool, String}
use otus_hightload.Py.{Fields}
use otus_hightload.Ha.Cycle.Plain.{IsPlain, IsPlainCall, plain_rules}
use otus_hightload.Ha.Cycle.Demote.{
  run_async, crash_recovery_first, handle_crash_recovery, handle_rewind_or_reinitialize,
  restart_demoted, rewind_or_remove, upstream_after,
}
use otus_hightload.Ha.Cycle.Follow.{change_upstream, follow_paused, follow_standby, follow_upstream}

pub run_async-IsPlain :
    (o : Fields) (a : Action) (msg : String)
    → IsPlainCall (asks (try_run a))
    → IsPlain o (run_async a msg)
unfolding run_async
run_async-IsPlain o a msg h = search (plain_rules) depth 40

pub handle_crash_recovery-IsPlain : (o : Fields) → IsPlain o handle_crash_recovery
unfolding handle_crash_recovery
handle_crash_recovery-IsPlain o = search (plain_rules, run_async-IsPlain) depth 40 fits 6000

pub crash_recovery_first-IsPlain : (o : Fields) → IsPlain o crash_recovery_first
unfolding crash_recovery_first
crash_recovery_first-IsPlain o =
    search (plain_rules, handle_crash_recovery-IsPlain) depth 40 fits 6000

pub rewind_or_remove-IsPlain : (o : Fields) → IsPlain o rewind_or_remove
unfolding rewind_or_remove
rewind_or_remove-IsPlain o =
    search (plain_rules, crash_recovery_first-IsPlain, run_async-IsPlain) depth 40 fits 6000

pub handle_rewind_or_reinitialize-IsPlain : (o : Fields) → IsPlain o handle_rewind_or_reinitialize
unfolding handle_rewind_or_reinitialize
handle_rewind_or_reinitialize-IsPlain o =
    search (plain_rules, rewind_or_remove-IsPlain) depth 40 fits 6000

pub restart_demoted-IsPlain :
    (o : Fields) (a : DemoteMode) (b : Upstream) → IsPlain o (restart_demoted a b)
unfolding restart_demoted
restart_demoted-IsPlain o a b = search (plain_rules) depth 40 fits 6000

pub upstream_after-IsPlain : (o : Fields) (a : DemoteMode) → IsPlain o (upstream_after a)
unfolding upstream_after
upstream_after-IsPlain o a = search (plain_rules) depth 40 fits 6000

pub change_upstream-IsPlain :
    (o : Fields) (a : Upstream) (b : Role) → IsPlain o (change_upstream a b)
unfolding change_upstream
change_upstream-IsPlain o a b = search (plain_rules) depth 40 fits 6000

pub follow_upstream-IsPlain :
    (o : Fields) (a : Upstream) (b : String) → IsPlain o (follow_upstream a b)
unfolding follow_upstream
follow_upstream-IsPlain o a b = search (plain_rules, change_upstream-IsPlain) depth 40 fits 6000

pub follow_standby-IsPlain :
    (o : Fields) (a : Upstream) (b : String) → IsPlain o (follow_standby a b)
unfolding follow_standby
follow_standby-IsPlain o a b =
    search (plain_rules, handle_rewind_or_reinitialize-IsPlain, follow_upstream-IsPlain) depth 40
      fits 6000

pub follow_paused-IsPlain : (o : Fields) (a : Upstream) (b : Bool) → IsPlain o (follow_paused a b)
unfolding follow_paused
follow_paused-IsPlain o a b = search (plain_rules) depth 40 fits 6000
