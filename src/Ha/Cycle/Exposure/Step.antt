-- ===== src/Ha/Cycle/Exposure/Step.antt =====
-- Every pass over a running PostgreSQL ends with the lock, or demoted, where it was asked for.
use otus_hightload.Prelude.{
  Bool, false, ◌&&◌, Option, none, some, String, ◌≡◌, arith, if◌then◌else◌,
}
use otus_hightload.Prelude.Int.{ℤ}
use otus_hightload.Dcs.Cluster.{Failover}
use otus_hightload.Ha.Cycle.Calls.{immediate, Call, DemoteMode}
use otus_hightload.Ha.Cycle.Run.{pure, ◌>>◌}
use otus_hightload.Ha.Cycle.Rules.{Fits, keeps_rules, untrue-Keeps, own-Keeps, bind-Keeps}
use otus_hightload.Ha.Cycle.Exposure.{
  Settles-Ends, Anything, Settles, then-Settles, watch_after, Free, Unknown, Stopped, Holds, Ready,
  Keeping, Ends, Leads, Demotes, blind-Fits, Stopped-Fits, holding-Fits, plain-Keeping, blind-Ends,
  cond-Ends, own-Ends, bind-Ends, then-Ends, ends-Leads, holding-Leads, cond-Leads, own-Leads,
  bind-Leads, then-Leads, own-Demotes, true-Demotes, untrue-Demotes, then-Demotes,
}
use otus_hightload.Ha.Cycle.Exposure.Decide.{primary-Settles, stop-Demotes, then_any-Demotes}
use otus_hightload.Ha.Cycle.Lock.{
  load_cluster_from_dcs, delete_leader_key, release_leader_key_voluntarily,
}
use otus_hightload.Ha.Cycle.Demote.{demote, stopped_clean, on_shutdown}
use otus_hightload.Ha.Cycle.Follow.{follow}
use otus_hightload.Ha.Cycle.Lead.{
  refuse_without_watchdog, cancel_promotion, lead, promote_node, enforce_primary_role,
}
use otus_hightload.Ha.Cycle.Process.{lost_lock, win, enforce_role, leader_failover}
use otus_hightload.Ha.Cycle.Plain.Lock.{
  set_is_leader-IsPlain, load_cluster_from_dcs-IsPlain, failover_possible-IsPlain,
}
use otus_hightload.Ha.Cycle.Plain.Follow.{
  upstream_after-IsPlain, restart_demoted-IsPlain, follow_standby-IsPlain,
}
use otus_hightload.Ha.Cycle.Plain.Lead.{
  watchdog_ready-IsPlain, script_failed-IsPlain, claim_sync-IsPlain,
}
use otus_hightload.Ha.Cycle.Plain.Process.{
  is_time-IsPlain, act_on_failover-IsPlain, answer_failover-IsPlain,
}

pub ruleset ends_rules = (own-Ends, bind-Ends, then-Ends, cond-Ends, blind-Ends)

pub ruleset leads_rules = (own-Leads, bind-Leads, then-Leads, cond-Leads, ends-Leads, holding-Leads)

-- the demotion

pub any-Fits : (c : Call) → Fits watch_after Free Anything c
any-Fits c = λ w i. (tt, λ r. tt)

delete_leader_key-Stopped : Keeping Stopped delete_leader_key
unfolding delete_leader_key
delete_leader_key-Stopped =
    search (keeps_rules, Stopped-Fits, plain-Keeping, set_is_leader-IsPlain) depth 40 fits 6000

release-Stopped : Keeping Stopped release_leader_key_voluntarily
unfolding release_leader_key_voluntarily
release-Stopped = search (keeps_rules, Stopped-Fits, delete_leader_key-Stopped) depth 40 fits 6000

stopped_clean-Stopped : (mode : DemoteMode) (o : Option ℤ) → Keeping Stopped (stopped_clean mode o)
unfolding stopped_clean on_shutdown
stopped_clean-Stopped mode none = search (keeps_rules)
stopped_clean-Stopped mode (some l) =
    search (keeps_rules, Stopped-Fits, plain-Keeping, failover_possible-IsPlain, release-Stopped)
      depth 40 fits 6000

demote-Demotes : (mode : DemoteMode) → Demotes (demote mode)
unfolding demote
demote-Demotes mode =
    search
      (
        then_any-Demotes, stop-Demotes, keeps_rules, any-Fits, Stopped-Fits, plain-Keeping,
        stopped_clean-Stopped, set_is_leader-IsPlain, release-Stopped, upstream_after-IsPlain,
        restart_demoted-IsPlain,
      )
      depth 60 fits 9000

-- without the lock

pub delete_leader_key-Unknown : Keeping Unknown delete_leader_key
unfolding delete_leader_key
delete_leader_key-Unknown =
    search (keeps_rules, blind-Fits, plain-Keeping, set_is_leader-IsPlain) depth 40 fits 6000

release-Unknown : Keeping Unknown release_leader_key_voluntarily
unfolding release_leader_key_voluntarily
release-Unknown = search (keeps_rules, blind-Fits, delete_leader_key-Unknown) depth 40 fits 6000

cancel_promotion-Unknown : Keeping Unknown cancel_promotion
unfolding cancel_promotion
cancel_promotion-Unknown = search (keeps_rules, blind-Fits, release-Unknown) depth 40 fits 6000

refuse_without_watchdog-Ends : Ends refuse_without_watchdog
unfolding refuse_without_watchdog
refuse_without_watchdog-Ends = Settles-Ends refuse_without_watchdog (
    primary-Settles
      (λ leads.
        if leads
        then demote immediate >> pure "Demoting self because watchdog could not be activated"
        else release_leader_key_voluntarily
          >> pure "Not promoting self because watchdog could not be activated")
      (search (then-Demotes, demote-Demotes, keeps_rules)) (search (keeps_rules, release-Unknown)))

pub lost_lock-Ends : Ends lost_lock
unfolding lost_lock
lost_lock-Ends = Settles-Ends lost_lock (
    primary-Settles _
      (search (own-Demotes, true-Demotes, untrue-Demotes, then-Demotes, demote-Demotes, keeps_rules)
        depth 20)
      (search (keeps_rules) depth 20))

pub follow-Settles : (a b : String) (refresh : Bool) → Settles (follow a b refresh)
unfolding follow
follow-Settles a b refresh =
    then-Settles (if refresh then load_cluster_from_dcs else pure tt) _
      (search (keeps_rules, plain-Keeping, load_cluster_from_dcs-IsPlain) depth 20)
      (primary-Settles _
        (search (own-Demotes, untrue-Demotes, then-Demotes, demote-Demotes, keeps_rules) depth 20)
        (search (keeps_rules, untrue-Keeps, plain-Keeping, follow_standby-IsPlain) depth 20))

pub follow-Ends : (a b : String) (refresh : Bool) → Ends (follow a b refresh)
follow-Ends a b refresh = Settles-Ends (follow a b refresh) (follow-Settles a b refresh)

-- with the lock

lead-Holds : (a b : String) → Keeping Holds (lead a b)
unfolding lead promote_node
lead-Holds a b =
    search (keeps_rules, holding-Fits, plain-Keeping, claim_sync-IsPlain) depth 40 fits 9000

enforce_primary_role-Leads : (a b : String) → Leads (enforce_primary_role a b)
unfolding enforce_primary_role
enforce_primary_role-Leads a b =
    search
      (
        leads_rules, blind-Ends, plain-Keeping, watchdog_ready-IsPlain, script_failed-IsPlain,
        refuse_without_watchdog-Ends, cancel_promotion-Unknown, lead-Holds,
      )
      depth 40 fits 9000

pub enforce_role-Leads : (a b c : String) → Leads (enforce_role a b c)
unfolding enforce_role
enforce_role-Leads a b c =
    search (leads_rules, follow-Ends, enforce_primary_role-Leads) depth 40 fits 9000

pub win-Leads : Leads win
unfolding win
win-Leads =
    search
      (
        leads_rules, keeps_rules, plain-Keeping, answer_failover-IsPlain,
        load_cluster_from_dcs-IsPlain, enforce_role-Leads,
      )
      depth 40 fits 9000

pub no_query : (a b : Bool) → b ≡ false → (a && b) ≡ false
no_query a b h = ground arith

pub leader_failover-Ready : (f : Option Failover) → Keeping Ready (leader_failover f)
unfolding leader_failover
leader_failover-Ready none = search (keeps_rules)
leader_failover-Ready (some f) =
    search
      (
        own-Keeps, bind-Keeps, untrue-Keeps, no_query, keeps_rules, plain-Keeping, is_time-IsPlain,
        act_on_failover-IsPlain,
      )
      depth 40 fits 9000
