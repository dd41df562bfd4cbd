-- ===== src/Scenarios/Raft.antt =====
-- The Raft store: nodes `a` and `b` and their leader key.
use otus_hightload.Prelude.{List, true, false, none, some, [], ◌∷◌, ◌≡◌, refl, arith, map, ◌⊎◌}
use otus_hightload.Prelude.Text.{Text, codes, text_eq}
use otus_hightload.Collections.Entries.{lookup, put, pop, IsDistinct}
use otus_hightload.Dcs.Raft.{
  starts_with, delete_applied, settle, set_submits, check_requirements, Lease, Entry, Store,
  no_requirements, set_applied, apply, replay, deletes,
}
use otus_hightload.Dcs.Raft.Lock.{
  Request, acquires, renews, releases, lapses, writes, takes, wipes, removes, command, lock_of,
  lock_run, replay_refines, lease_protects,
}
use otus_hightload.Dcs.Raft.Versions.{no_lost_update}
use otus_hightload.Dcs.Raft.Expiry.{
  last_item, is_due, expire_keys, asks_log, living, ended_leave, asked_once, callbacks,
}
use otus_hightload.Dcs.Raft.Retry.{success, other_reason, retry, retry_ends, is_waiting}
use otus_hightload.Dcs.Raft.Client.{
  set, Client, Call, applied_to, update_leader, renew_call, acquire_call,
}
use otus_hightload.Dcs.Raft.Client.Leadership.{Leads, update_leader_lem}

abbrev leader_key : Text
leader_key = codes "/leader"

abbrev status_key : Text
status_key = codes "/status"

abbrev lease_a : Lease
lease_a = record { value = codes "a"; created = 10; updated = 10; expire = some 40 }

abbrev lease_b : Lease
lease_b = record { value = codes "b"; created = 20; updated = 20; expire = some 50 }

abbrev status : Lease
status = record { value = codes "7"; created = 5; updated = 15; expire = none }

abbrev led : Store
led =
    (leader_key, record { lease = lease_a; index = 3 })
    ∷ (status_key, record { lease = status; index = 4 })
    ∷ []

led-IsDistinct : IsDistinct led
unfolding lookup text_eq
led-IsDistinct = (refl, (refl, tt))

-- b asks for the lock, renews and releases it in vain, another lease of a lapses, a status is written.
abbrev requests : List Request
requests =
    acquires lease_b
    ∷ renews lease_b
    ∷ releases (codes "b")
    ∷ lapses (record lease_a { expire = some 30 })
    ∷ writes status_key status no_requirements
    ∷ removes (codes "/sync") no_requirements
    ∷ []

-- before, b takes the lock, and the cluster is deleted
abbrev forced : List Request
forced = takes lease_b ∷ wipes (codes "/") ∷ requests

replay_refines_example :
    lock_of leader_key (replay 4 (map (command leader_key) forced) led)
    ≡ lock_run forced (lock_of leader_key led)
unfolding text_eq starts_with
replay_refines_example =
    replay_refines leader_key 4 forced led led-IsDistinct
      (tt, (refl, (tt, (tt, (tt, (tt, (refl, (refl, tt))))))))

lease_protects_example :
    lock_of leader_key (replay 4 (map (command leader_key) requests) led) ≡ some lease_a
lease_protects_example =
    lease_protects leader_key 4 requests led lease_a 30 40 led-IsDistinct
      (unfold lock_of lookup text_eq in refl) refl (omega arith)
      (tt, (tt, (tt, (tt, (unfold text_eq in refl, (unfold text_eq in refl, tt))))))
      (
        tt,
        (
          unfold text_eq in refl,
          (unfold text_eq in refl, ((30, refl, omega arith), (tt, (tt, tt)))),
        ),
      )

no_lost_update_example :
    (seen : Entry) × (lookup status_key led ≡ some seen)
    × (seen.index ≡ 4)
    × (lookup status_key (replay 4 (deletes leader_key false no_requirements ∷ []) led) ≡ some seen)
no_lost_update_example =
    no_lost_update 4 5 4 (deletes leader_key false no_requirements ∷ []) led status_key status
      (record { lease = status; index = 6 }) led-IsDistinct (omega arith)
      (unfold set_applied check_requirements replay apply delete_applied lookup text_eq pop put
          settle in
        refl)

ended_leave_example :
    lookup leader_key (replay 4 (asks_log (expire_keys 45 led []).0) led)
    ≡ living 45 (lookup leader_key led)
ended_leave_example = ended_leave 4 45 led leader_key led-IsDistinct

asked_once_example :
    lookup leader_key (expire_keys 60 led (callbacks 2 led (expire_keys 45 led []).1)).0 ≡ none
asked_once_example =
    asked_once 2 45 60 led [] status_key status leader_key (record { lease = lease_a; index = 3 })
      led-IsDistinct (unfold lookup text_eq in refl) (unfold is_due in refl)
      (unfold last_item in refl) (unfold text_eq in refl)

retry_ends_example :
    is_waiting (retry (some 3) ((other_reason, 1) ∷ (other_reason, 2) ∷ (success true, 9) ∷ []))
    ≡ false
retry_ends_example =
    retry_ends 3 1 ((other_reason, 1) ∷ (other_reason, 2) ∷ (success true, 9) ∷ [])
      (omega arith, (omega arith, (omega arith, tt))) (omega arith)

abbrev node_a : Client
node_a = record {
  name = codes "a";
  ttl = 30;
  leader_path = leader_key;
  sync_path = codes "/sync";
  members_path = codes "/members/";
  member_path = codes "/members/a";
  leader_optime_path = codes "/optime/leader";
  status_path = status_key;
  config_path = codes "/config";
  initialize_path = codes "/initialize";
}

abbrev renewal : Call
renewal = record { now = 25; local = led; answer = applied_to 4 led }

update_leader_example :
    Leads node_a renewal (renew_call node_a renewal)
    ⊎ Leads node_a renewal (acquire_call node_a renewal)
update_leader_example = update_leader_lem node_a renewal renewal (omega arith) (
    unfold update_leader renew_call set set_submits set_applied check_requirements settle lookup
      text_eq put in
    refl)
