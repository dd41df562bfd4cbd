-- ===== src/Ha/Cycle/Promotion/Pass.antt =====
-- The whole pass: what it promotes, and restarts as a primary, it does with the leader lock.
use otus_hightload.Prelude.{Bool, true, false, String, ◌≡◌, arith, if◌then◌else◌}
use otus_hightload.Ha.Cycle.Calls.{
  Reply, answers, throws, ControlState, dcs_error, postgres_error, fatal, other_exception,
}
use otus_hightload.Ha.Cycle.Run.{
  Run, returns, raises, calls, Proc, Safe, Ha, pure, raise, attempt, catching, replied, ask, act,
  call, self, become, and_then, ◌>>=◌, ◌>>◌,
}
use otus_hightload.Ha.Cycle.Rules.{Keeps, keeps_rules}
use otus_hightload.Ha.Cycle.Lock.{
  healthiest, acquire_lock, update_lock, set_is_leader, false_unless_dcs,
}
use otus_hightload.Ha.Cycle.Follow.{follow}
use otus_hightload.Ha.Cycle.Process.{
  win, keep_lock, lost_lock, renew_lock, hold_lock, process_healthy_cluster,
  process_unhealthy_cluster,
}
use otus_hightload.Ha.Cycle.Recover.{
  restart_primary, recover_from, recover_with_lock, recover, start_by,
}
use otus_hightload.Ha.Cycle.Idle.{
  run_healthy, recover_crashed, down_in_pause, run_with_data, run_idle,
}
use otus_hightload.Ha.Cycle.Main.{
  handle_dcs_error, read_cluster, run_free, cycle_body, concluded, conclude, run_cycle,
}
use otus_hightload.Ha.Cycle.Promotion.{
  answered, quiet-Safe, lock_after, MayLead, IsQuiet, IsHolding, Begins, Tells, quiet-Fits,
  lead-Fits, plain-IsQuiet, begins_rules, cond-Tells, lock-IsQuiet,
}
use otus_hightload.Ha.Cycle.Plain.Lock.{load_cluster_from_dcs-IsPlain, failover_possible-IsPlain}
use otus_hightload.Ha.Cycle.Plain.Recover.{recover_as_standby-IsPlain}
use otus_hightload.Ha.Cycle.Plain.Main.{
  note_pause-IsPlain, fill_keys-IsPlain, stays_down-IsPlain, conclude-IsPlain,
}
use otus_hightload.Ha.Cycle.Promotion.Quiet.{
  demote-IsQuiet, delete_leader_key-IsQuiet, follow-IsQuiet, lose-IsQuiet, lost_lock-IsQuiet,
  keep_slots-IsQuiet, check_sysid-IsQuiet, run_without_data-IsQuiet, end_recovery-IsQuiet,
  handle_starting_instance-IsQuiet, handle_long_action_in_progress-IsQuiet, post_bootstrap-IsQuiet,
  handle_dcs_error-IsQuiet,
}
use otus_hightload.Ha.Cycle.Promotion.Begin.{win-Begins, keep_lock-Begins}

told :
    (r : Reply Bool) (s : Ha)
    → Safe lock_after MayLead
        (λ b _ m'. b ≡ true → m' ≡ true)
        (λ _ _ _. Unit)
        (and_then (catching (replied s r) false_unless_dcs) (λ ret. set_is_leader ret >> pure ret))
        (answered r)
unfolding Safe set_is_leader false_unless_dcs lock_after answered MayLead call pure raise self
    become ◌>>=◌ ◌>>◌
told (answers true) s = ground arith
told (answers false) s = ground arith
told (throws e) s = ground arith

pub acquire_lock-Tells : Tells acquire_lock
unfolding Tells Safe acquire_lock attempt lock_after MayLead ask call ◌>>=◌
acquire_lock-Tells s m = (tt, λ r. told r s)

pub update_lock-Tells : (b : Bool) → Tells (update_lock b)
unfolding Tells Safe update_lock set_is_leader false_unless_dcs attempt lock_after answered MayLead
    ask act call pure raise self become ◌>>=◌ ◌>>◌
update_lock-Tells b s m = ground arith

renew_lock-IsQuiet : IsQuiet renew_lock
unfolding renew_lock
renew_lock-IsQuiet =
    lock-IsQuiet (update_lock true) (λ _. keep_lock) lost_lock (update_lock-Tells true)
      (λ _. keep_lock-Begins) lost_lock-IsQuiet

hold_lock-IsQuiet : IsQuiet hold_lock
unfolding hold_lock
hold_lock-IsQuiet =
    search (keeps_rules, quiet-Fits, renew_lock-IsQuiet, delete_leader_key-IsQuiet) depth 40 fits
      6000

pub process_healthy_cluster-IsQuiet : IsQuiet process_healthy_cluster
unfolding process_healthy_cluster
process_healthy_cluster-IsQuiet =
    search (keeps_rules, hold_lock-IsQuiet, follow-IsQuiet) depth 40 fits 6000

race_lock-IsQuiet :
    (a b : String)
    → IsQuiet (acquire_lock >>= λ acquired. if acquired then win else follow a b true)
race_lock-IsQuiet a b =
    lock-IsQuiet acquire_lock (λ _. win) (follow a b true) acquire_lock-Tells (λ _. win-Begins)
      (follow-IsQuiet a b true)

healthiest-IsQuiet : IsQuiet healthiest
unfolding healthiest
healthiest-IsQuiet = search (keeps_rules, quiet-Fits) depth 40 fits 6000

pub process_unhealthy_cluster-IsQuiet : IsQuiet process_unhealthy_cluster
unfolding process_unhealthy_cluster
process_unhealthy_cluster-IsQuiet =
    search (keeps_rules, healthiest-IsQuiet, race_lock-IsQuiet, lose-IsQuiet) depth 40 fits 6000

restart_primary-IsHolding : (c : ControlState) (b : Bool) → IsHolding (restart_primary c b)
unfolding restart_primary start_by
restart_primary-IsHolding c b = search (keeps_rules, lead-Fits) depth 40 fits 6000

recover_from-Begins : (b : Bool) → Begins (recover_from b)
unfolding recover_from
recover_from-Begins b =
    search
      (
        begins_rules, keeps_rules, lead-Fits, restart_primary-IsHolding, recover_as_standby-IsPlain,
        plain-IsQuiet,
      )
      depth 40 fits 6000

recover_untimed-IsQuiet : IsQuiet (recover_from false)
unfolding recover_from
recover_untimed-IsQuiet =
    search (keeps_rules, quiet-Fits, plain-IsQuiet, recover_as_standby-IsPlain) depth 40 fits 6000

recover_with_lock-Begins : Begins recover_with_lock
unfolding recover_with_lock
recover_with_lock-Begins =
    search
      (
        begins_rules, keeps_rules, lead-Fits, quiet-Fits, recover_from-Begins,
        failover_possible-IsPlain, demote-IsQuiet,
      )
      depth 40 fits 6000

recover_lock-IsQuiet :
    (b : Bool)
    → IsQuiet (
        (if b then update_lock false else pure false) >>= λ renewed.
        if renewed then recover_with_lock else recover_from false)
recover_lock-IsQuiet b =
    lock-IsQuiet (if b then update_lock false else pure false) (λ _. recover_with_lock)
      (recover_from false) (cond-Tells b (update_lock false) (update_lock-Tells false))
      (λ _. recover_with_lock-Begins) recover_untimed-IsQuiet

pub recover-IsQuiet : IsQuiet recover
unfolding recover
recover-IsQuiet = search (keeps_rules, recover_lock-IsQuiet) depth 40 fits 6000

run_healthy-IsQuiet : IsQuiet run_healthy
unfolding run_healthy
run_healthy-IsQuiet =
    search
      (
        keeps_rules, quiet-Fits, process_healthy_cluster-IsQuiet, process_unhealthy_cluster-IsQuiet,
        keep_slots-IsQuiet,
      )
      depth 40 fits 6000

recover_crashed-IsQuiet : IsQuiet recover_crashed
unfolding recover_crashed
recover_crashed-IsQuiet = search (keeps_rules, quiet-Fits, recover-IsQuiet) depth 40 fits 6000

down_in_pause-IsQuiet : IsQuiet down_in_pause
unfolding down_in_pause
down_in_pause-IsQuiet =
    search
      (
        keeps_rules, quiet-Fits, plain-IsQuiet, stays_down-IsPlain, delete_leader_key-IsQuiet,
        recover_crashed-IsQuiet,
      )
      depth 40 fits 6000

run_with_data-IsQuiet : IsQuiet run_with_data
unfolding run_with_data
run_with_data-IsQuiet =
    search
      (keeps_rules, quiet-Fits, run_healthy-IsQuiet, down_in_pause-IsQuiet, recover_crashed-IsQuiet)
      depth 40 fits 6000

run_idle-IsQuiet : IsQuiet run_idle
unfolding run_idle
run_idle-IsQuiet =
    search
      (
        keeps_rules, quiet-Fits, run_with_data-IsQuiet, run_without_data-IsQuiet,
        check_sysid-IsQuiet,
      )
      depth 40 fits 6000

run_free-IsQuiet : IsQuiet run_free
unfolding run_free
run_free-IsQuiet =
    search
      (
        keeps_rules, quiet-Fits, run_idle-IsQuiet, end_recovery-IsQuiet,
        handle_starting_instance-IsQuiet, post_bootstrap-IsQuiet,
      )
      depth 40 fits 6000

read_cluster-IsQuiet : IsQuiet read_cluster
unfolding read_cluster
read_cluster-IsQuiet =
    search (keeps_rules, quiet-Fits, plain-IsQuiet, load_cluster_from_dcs-IsPlain) depth 40 fits
      6000

cycle_body-IsQuiet : IsQuiet cycle_body
unfolding cycle_body
cycle_body-IsQuiet =
    search
      (
        keeps_rules, quiet-Fits, plain-IsQuiet, read_cluster-IsQuiet, note_pause-IsPlain,
        fill_keys-IsPlain, run_free-IsQuiet, handle_long_action_in_progress-IsQuiet,
      )
      depth 40 fits 6000

conclude_then-IsQuiet : {A : Type 0} (p : Proc A) → IsQuiet p → IsQuiet (conclude >> p)
conclude_then-IsQuiet p h = search (keeps_rules, plain-IsQuiet, conclude-IsPlain)

concluded-Safe :
    (run : Run String) (m : Bool)
    → Safe lock_after MayLead (λ _ _ _. Unit) (λ _ _ _. Unit) run m
    → Safe lock_after MayLead (λ _ _ _. Unit) (λ _ _ _. Unit) (concluded run) m
unfolding concluded Safe Keeps
concluded-Safe (returns msg s) m h =
    quiet-Safe (conclude >> pure msg) (conclude_then-IsQuiet (pure msg) (search (keeps_rules))) s m
concluded-Safe (raises dcs_error s) m h = quiet-Safe handle_dcs_error handle_dcs_error-IsQuiet s m
concluded-Safe (raises postgres_error s) m h =
    let msg = pure "Error communicating with PostgreSQL. Will try again later" in
    quiet-Safe (conclude >> msg) (conclude_then-IsQuiet msg (search (keeps_rules))) s m
concluded-Safe (raises (fatal msg) s) m h =
    let e = raise {A = String} (fatal msg) in
    quiet-Safe (conclude >> e) (conclude_then-IsQuiet e (search (keeps_rules))) s m
concluded-Safe (raises other_exception s) m h =
    let e = raise {A = String} other_exception in
    quiet-Safe (conclude >> e) (conclude_then-IsQuiet e (search (keeps_rules))) s m
concluded-Safe (calls c k) m h = (h.0, λ r. concluded-Safe (k r) (lock_after c r m) (h.1 r))

-- In every run of a pass of the HA loop, whatever the store, PostgreSQL, the watchdog and the
-- other members answer, and whichever calls fail: a promotion of PostgreSQL, or its restart as a
-- primary after a crash, is begun only when the last answer on the leader lock was that the node has
-- it, and it has not released the lock since.
pub promotes_with_lock :
    (s : Ha) (held : Bool)
    → Safe lock_after MayLead (λ _ _ _. Unit) (λ _ _ _. Unit) (run_cycle s) held
unfolding run_cycle Keeps
promotes_with_lock s held =
    concluded-Safe (cycle_body s) held (quiet-Safe cycle_body cycle_body-IsQuiet s held)
