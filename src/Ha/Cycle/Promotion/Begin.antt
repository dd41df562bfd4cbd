-- ===== src/Ha/Cycle/Promotion/Begin.antt =====
-- What is done with the leader lock: it is kept until PostgreSQL is promoted.
use otus_hightload.Prelude.{Option, none, some, String}
use otus_hightload.Dcs.Cluster.{Failover}
use otus_hightload.Ha.Cycle.Rules.{keeps_rules}
use otus_hightload.Ha.Cycle.Lead.{promote_node, lead, enforce_primary_role}
use otus_hightload.Ha.Cycle.Process.{
  leader_failover, process_manual_failover_from_leader, enforce_role, win, keep_lock,
}
use otus_hightload.Ha.Cycle.Plain.Lead.{
  claim_sync-IsPlain, script_failed-IsPlain, watchdog_ready-IsPlain,
}
use otus_hightload.Ha.Cycle.Plain.Process.{
  act_on_failover-IsPlain, answer_failover-IsPlain, is_time-IsPlain,
}
use otus_hightload.Ha.Cycle.Plain.Lock.{load_cluster_from_dcs-IsPlain}
use otus_hightload.Ha.Cycle.Promotion.{Begins, IsHolding, begins_rules, lead-Fits, plain-IsHolding}
use otus_hightload.Ha.Cycle.Promotion.Quiet.{
  refuse_without_watchdog-IsQuiet, cancel_promotion-IsQuiet, follow-IsQuiet,
}

pub promote_node-IsHolding : (a : String) → IsHolding (promote_node a)
unfolding promote_node
promote_node-IsHolding a =
    search (keeps_rules, lead-Fits, plain-IsHolding, claim_sync-IsPlain) depth 40 fits 6000

pub lead-IsHolding : (a : String) (b : String) → IsHolding (lead a b)
unfolding lead
lead-IsHolding a b =
    search (keeps_rules, lead-Fits, plain-IsHolding, promote_node-IsHolding) depth 40 fits 6000

pub leader_failover-IsHolding : (a : Option Failover) → IsHolding (leader_failover a)
unfolding leader_failover
leader_failover-IsHolding none = search (keeps_rules) depth 40 fits 6000
leader_failover-IsHolding (some a) =
    search (keeps_rules, lead-Fits, plain-IsHolding, is_time-IsPlain, act_on_failover-IsPlain) depth
      40 fits 6000

pub process_manual_failover_from_leader-IsHolding : IsHolding process_manual_failover_from_leader
unfolding process_manual_failover_from_leader
process_manual_failover_from_leader-IsHolding =
    search (keeps_rules, plain-IsHolding, leader_failover-IsHolding) depth 40 fits 6000

pub enforce_primary_role-Begins : (a : String) (b : String) → Begins (enforce_primary_role a b)
unfolding enforce_primary_role
enforce_primary_role-Begins a b =
    search
      (
        begins_rules, keeps_rules, lead-Fits, watchdog_ready-IsPlain, script_failed-IsPlain,
        lead-IsHolding, refuse_without_watchdog-IsQuiet, cancel_promotion-IsQuiet,
      )
      depth 40 fits 6000

pub enforce_role-Begins : (a : String) (b : String) (c : String) → Begins (enforce_role a b c)
unfolding enforce_role
enforce_role-Begins a b c =
    search (begins_rules, keeps_rules, enforce_primary_role-Begins, follow-IsQuiet) depth 40 fits
      6000

pub win-Begins : Begins win
unfolding win
win-Begins =
    search
      (
        begins_rules, keeps_rules, load_cluster_from_dcs-IsPlain, answer_failover-IsPlain,
        enforce_role-Begins,
      )
      depth 40 fits 6000

pub keep_lock-Begins : Begins keep_lock
unfolding keep_lock
keep_lock-Begins =
    search
      (
        begins_rules, keeps_rules, lead-Fits, process_manual_failover_from_leader-IsHolding,
        enforce_role-Begins,
      )
      depth 40 fits 6000
