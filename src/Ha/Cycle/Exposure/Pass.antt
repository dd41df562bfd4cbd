-- ===== src/Ha/Cycle/Exposure/Pass.antt =====
-- A pass over a running PostgreSQL leaves no primary without the lock.
use otus_hightload.Prelude.{Bool, true, false, String, ◌≡◌, refl, arith, if◌then◌else◌}
use otus_hightload.GlobalConfig.{is_paused}
use otus_hightload.Dcs.Cluster.{is_unlocked}
use otus_hightload.Ha.Cycle.Calls.{watchdog_keepalive, Reply, answers, throws}
use otus_hightload.Ha.Cycle.Run.{
  Safe, Ha, pure, ask, act, call, self, become, attempt, raise, replied, catching, and_then, ◌>>=◌,
  ◌>>◌,
}
use otus_hightload.Ha.Cycle.Rules.{keeps_rules, untrue-Keeps}
use otus_hightload.Ha.Cycle.Exposure.{
  Watch, watch_after, answered, Free, IsCovered, IsUnpaused, Unknown, Ready, Holds, Keeping, Ends,
  Settles-Ends, Settles, own-Settles, bind-Settles, then-Settles, cond-Settles, Anything, Leads,
  Tells, plain-Fits, msg_or-Leads, own-Ends, bind-Ends, cond-Ends,
}
use otus_hightload.Ha.Cycle.Exposure.Decide.{lock-Settles}
use otus_hightload.Ha.Cycle.Exposure.Step.{
  ends_rules, leads_rules, delete_leader_key-Unknown, any-Fits, follow-Settles, follow-Ends,
  enforce_role-Leads, win-Leads, lost_lock-Ends, leader_failover-Ready,
}
use otus_hightload.Ha.Cycle.Lock.{
  healthiest, acquire_lock, update_lock, set_is_leader, false_unless_dcs,
}
use otus_hightload.Ha.Cycle.Follow.{follow}
use otus_hightload.Ha.Cycle.Process.{
  lost_lock, keep_lock, renew_lock, hold_lock, win, lose, process_manual_failover_from_leader,
  process_healthy_cluster, process_unhealthy_cluster,
}

told :
    (r : Reply Bool) (s : Ha) (w : Watch)
    → IsUnpaused s.config
    → Unknown w
    → w.held ≡ answered r
    → Safe watch_after Free
        (λ b s' w'. IsUnpaused s'.config × Unknown w' × (b ≡ true → Holds w'))
        (λ _ _ _. Unit)
        (and_then (catching (replied s r) false_unless_dcs) (λ ret. set_is_leader ret >> pure ret))
        w
unfolding Safe set_is_leader false_unless_dcs watch_after answered call pure raise self become ◌>>=◌
    ◌>>◌
told (answers true) s w k i e = ground arith
told (answers false) s w k i e = ground arith
told (throws x) s w k i e = ground arith

acquire_lock-Tells : Tells acquire_lock
unfolding Tells Safe acquire_lock attempt watch_after ask call ◌>>=◌
acquire_lock-Tells s w k =
    (tt, λ r. told r s (record w { held = answered r; leads = false }) k refl refl)

renewed :
    (r : Reply Bool) (s : Ha) (w : Watch)
    → IsUnpaused s.config
    → Unknown w
    → w.held ≡ answered r
    → Safe watch_after Free
        (λ b s' w'. IsUnpaused s'.config × Unknown w' × (b ≡ true → Holds w'))
        (λ _ _ _. Unit)
        (and_then (catching (replied s r) false_unless_dcs) (λ ret.
          set_is_leader ret >> (if ret then act watchdog_keepalive >> pure true else pure false)))
        w
unfolding Safe set_is_leader false_unless_dcs watch_after answered act call pure raise self become
    ◌>>=◌ ◌>>◌
renewed (answers true) s w k i e = ground arith
renewed (answers false) s w k i e = ground arith
renewed (throws x) s w k i e = ground arith

update_lock-Tells : (b : Bool) → Tells (update_lock b)
unfolding Tells Safe update_lock attempt watch_after ask call ◌>>=◌
update_lock-Tells b s w k =
    (tt, λ r. renewed r s (record w { held = answered r; leads = false }) k refl refl)

process_manual_failover_from_leader-Ready : Keeping Ready process_manual_failover_from_leader
unfolding process_manual_failover_from_leader
process_manual_failover_from_leader-Ready = search (keeps_rules, leader_failover-Ready)

keep_lock-Leads : Leads keep_lock
unfolding keep_lock
keep_lock-Leads =
    search
      (
        leads_rules, keeps_rules, msg_or-Leads, plain-Fits,
        process_manual_failover_from_leader-Ready, enforce_role-Leads,
      )
      depth 40 fits 9000

renew_lock-Ends : Ends renew_lock
unfolding renew_lock
renew_lock-Ends = Settles-Ends renew_lock (
    lock-Settles (update_lock true) (λ _. keep_lock) lost_lock (update_lock-Tells true)
      (λ _. keep_lock-Leads) lost_lock-Ends)

hold_lock-Ends : Ends hold_lock
unfolding hold_lock
hold_lock-Ends =
    search
      (
        own-Ends, bind-Ends, untrue-Keeps, ends_rules, keeps_rules, renew_lock-Ends,
        delete_leader_key-Unknown,
      )
      depth 40 fits 9000

process_healthy_cluster-Ends : Ends process_healthy_cluster
unfolding process_healthy_cluster
process_healthy_cluster-Ends = search (ends_rules, hold_lock-Ends, follow-Ends) depth 40 fits 9000

race-Settles :
    (a b : String)
    → Settles (acquire_lock >>= λ acquired. if acquired then win else follow a b true)
race-Settles a b =
    lock-Settles acquire_lock (λ _. win) (follow a b true) acquire_lock-Tells (λ _. win-Leads)
      (follow-Ends a b true)

lose-Settles : Settles lose
unfolding lose
lose-Settles =
    search
      (own-Settles, bind-Settles, then-Settles, cond-Settles, keeps_rules, any-Fits, follow-Settles)
      depth 40 fits 9000

healthiest-Keeps : Keeping Anything healthiest
unfolding healthiest
healthiest-Keeps = search (keeps_rules, any-Fits) depth 40 fits 9000

process_unhealthy_cluster-Ends : Ends process_unhealthy_cluster
unfolding process_unhealthy_cluster
process_unhealthy_cluster-Ends = Settles-Ends process_unhealthy_cluster (
    bind-Settles healthiest _ healthiest-Keeps (λ wins.
      cond-Settles wins _ _
        (race-Settles "demoted self after trying and failing to obtain lock"
          "following new leader after trying and failing to obtain lock")
        lose-Settles))

-- Outside a pause, when the processing of a healthy or of an unhealthy cluster returns: if PostgreSQL
-- was asked whether it is a primary since the last answer on the leader lock, and its last answer was
-- yes, the node has the leader lock, or a demotion has stopped PostgreSQL, whatever was answered in
-- between.
pub no_primary_without_lock :
    (s : Ha) (w : Watch)
    → is_paused s.config ≡ false
    → w.leads ≡ false
    → Safe watch_after Free
        (λ _ _ w'. IsCovered w')
        (λ _ _ _. Unit)
        ((if is_unlocked s.view.cluster then process_unhealthy_cluster else process_healthy_cluster)
          s)
        w
unfolding Ends
no_primary_without_lock s w =
    cond-Ends (is_unlocked s.view.cluster) process_unhealthy_cluster process_healthy_cluster
      process_unhealthy_cluster-Ends process_healthy_cluster-Ends s w
