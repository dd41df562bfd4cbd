-- ===== src/Ha/Cycle/Plain/Process.antt =====
-- The plain procedures of Ha/Cycle/Process.
use otus_hightload.Prelude.{Option, none, some}
use otus_hightload.Py.{Fields}
use otus_hightload.Prelude.Int.{ℤ}
use otus_hightload.Dcs.Cluster.{Failover}
use otus_hightload.Ha.Cycle.Run.{Proc}
use otus_hightload.Ha.Cycle.Plain.{IsPlain, plain_rules}
use otus_hightload.Ha.Cycle.Process.{
  act_on_failover, answer_failover, grants, is_time, should_run_scheduled_action,
}
use otus_hightload.Ha.Cycle.Plain.Lock.{failover_possible-IsPlain}
use otus_hightload.Ha.Cycle.Plain.Follow.{run_async-IsPlain}

pub should_run_scheduled_action-IsPlain :
    (o : Fields) (t : Option ℤ) (cleanup : Proc (Unit {0}))
    → IsPlain o cleanup
    → IsPlain o (should_run_scheduled_action t cleanup)
unfolding should_run_scheduled_action
should_run_scheduled_action-IsPlain o none cleanup h = search (plain_rules)
should_run_scheduled_action-IsPlain o (some t) cleanup h = search (plain_rules) depth 40 fits 6000

pub is_time-IsPlain : (o : Fields) (a : Failover) → IsPlain o (is_time a)
unfolding is_time
is_time-IsPlain o a = search (plain_rules, should_run_scheduled_action-IsPlain) depth 40 fits 6000

pub grants-IsPlain : (o : Fields) (a : Failover) → IsPlain o (grants a)
unfolding grants
grants-IsPlain o a = search (plain_rules, failover_possible-IsPlain) depth 40 fits 6000

pub act_on_failover-IsPlain : (o : Fields) (a : Failover) → IsPlain o (act_on_failover a)
unfolding act_on_failover
act_on_failover-IsPlain o a =
    search (plain_rules, grants-IsPlain, run_async-IsPlain) depth 40 fits 6000

pub answer_failover-IsPlain : (o : Fields) (f : Option Failover) → IsPlain o (answer_failover f)
unfolding answer_failover
answer_failover-IsPlain o none = search (plain_rules)
answer_failover-IsPlain o (some f) = search (plain_rules) depth 40 fits 6000
