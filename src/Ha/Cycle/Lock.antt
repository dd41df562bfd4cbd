-- ===== src/Ha/Cycle/Lock.antt =====
-- The leader lock in .patroni/patroni/ha.py: `load_cluster_from_dcs`, `acquire_lock`, `update_lock`,
-- `_delete_leader`, and the node's own view of its leadership.
use otus_hightload.Prelude.{
  ℕ, ◌∷◌, List, ◌+◌, ◌==◌, ltb, Bool, true, false, not, ◌&&◌, ◌||◌, Option, none, some, [],
  if◌then◌else◌, is_some,
}
use otus_hightload.Prelude.Int.{ℤ, pos, negsuc}
use otus_hightload.Prelude.Text.{codes, text_eq}
use otus_hightload.Py.{Fields, Value, dict, get}
use otus_hightload.GlobalConfig.{check_mode}
use otus_hightload.Dcs.Cluster.{Failover, Cluster, Leader, is_unlocked, leader_name}
use otus_hightload.Ha.Node.{Node}
use otus_hightload.Ha.Election.{is_healthiest_node}
use otus_hightload.Ha.Race.{is_failover_possible}
use otus_hightload.Ha.Cycle.Calls.{
  is_primary, manual_failover, observe, View, dcs_error, Failure, get_cluster, failsafe_leader,
  attempt_to_acquire_leader, update_leader, watchdog_keepalive, delete_leader, touch_member,
  reset_cluster, time,
}
use otus_hightload.Ha.Cycle.Run.{
  ask, Ha, Proc, pure, raise, attempt, call, act, self, become, ◌>>=◌, ◌>>◌,
}

is_none_set : ℤ → Bool
is_none_set (pos n) = n == 0
is_none_set (negsuc n) = false

no_list {ℓ} : {A : Type ℓ} → List A → Bool
no_list [] = true
no_list (x ∷ xs) = false

-- `not cluster`
unfoldable pub is_empty_view : View → Bool
unfolding is_none_set no_list
is_empty_view v =
    not (is_some v.cluster.initialize)
    && not (is_some v.config)
    && not (is_some v.cluster.leader)
    && is_none_set v.cluster.status.last_lsn
    && no_list v.cluster.members
    && not (is_some v.cluster.failover)
    && not (is_some v.cluster.sync.version)
    && not (is_some v.cluster.history)
    && not (is_some v.cluster.status.slots)
    && not (is_some v.cluster.failsafe)
    && not v.has_workers

unfoldable pub is_failsafe_mode : Ha → Bool
is_failsafe_mode s = check_mode s.config (codes "failsafe_mode")

-- `has_lock`: the leader of the cluster is this node
unfoldable pub has_lock : Ha → Bool
has_lock s = is_some s.view.cluster.leader && text_eq (leader_name s.view.cluster) s.name

unfoldable pub is_leader : Proc Bool
is_leader = do now ← call time; s ← self; pure (ltb now s.leader_expiry)

unfoldable pub set_is_leader : Bool → Proc (Unit {0})
set_is_leader true = do now ← call time; s ← self; become (record s { leader_expiry = now + s.ttl })
set_is_leader false = do s ← self; become (record s { leader_expiry = 0 })

slots_of : Option Value → Option Fields
slots_of (some (dict d)) = some d
slots_of _ = none

led : Leader → Cluster → Cluster
unfolding slots_of
led l c = record c {
  leader = some l;
  status = record c.status { slots = slots_of (get (codes "slots") l.member.fields) };
}

-- `Failsafe.update_cluster`
unfoldable pub with_leader : Option Leader → View → View
unfolding led
with_leader none v = v
with_leader (some l) v = record v { cluster = led l v.cluster }

unfoldable pub injected : View → Proc View
injected v = do
  s ← self
  if is_unlocked v.cluster && is_failsafe_mode s
      then (do l ← call failsafe_leader; pure (with_leader l v))
      else pure v

unfoldable pub load_cluster_from_dcs : Proc (Unit {0})
unfolding injected
load_cluster_from_dcs = do
  v ← call get_cluster
  s ← self
  let old = if not (is_unlocked v.cluster) || is_empty_view s.old_view then v else s.old_view
  become (record s { view = v; old_view = old })
  v' ← injected v
  s' ← self
  become (record s' { view = v' })
  s'' ← self
  if has_lock s'' then pure tt else set_is_leader false

-- an exception other than `DCSError` counts as `False`
unfoldable pub false_unless_dcs : Failure → Proc Bool
false_unless_dcs dcs_error = raise dcs_error
false_unless_dcs _ = pure false

unfoldable pub acquire_lock : Proc Bool
acquire_lock = do
  ret ← attempt (ask attempt_to_acquire_leader) false_unless_dcs
  set_is_leader ret
  pure ret

-- The position and the slots that go with the update are data of the call.
unfoldable pub update_lock : Bool → Proc Bool
update_lock update_status = do
  ret ← attempt (ask (update_leader update_status)) false_unless_dcs
  set_is_leader ret
  if ret then act watchdog_keepalive >> pure true else pure false

-- `_delete_leader`
unfoldable pub delete_leader_key : Proc (Unit {0})
delete_leader_key = do set_is_leader false; act delete_leader; act reset_cluster

unfoldable pub release_leader_key_voluntarily : Proc (Unit {0})
release_leader_key_voluntarily = delete_leader_key >> act touch_member

-- What the leader race asks of the other objects is one observation; the rest is the node's own.
unfoldable pub node_of : Ha → Node → Node
node_of s n = record n {
  name = s.name;
  tags = s.tags;
  config = s.config;
  cluster = s.view.cluster;
  old_members = s.old_view.cluster.members;
  ttl = s.ttl;
  released_leader_key = s.released_leader_key;
}

-- `is_failover_possible(cluster_lsn=...)`
unfoldable pub failover_possible : ℤ → Proc Bool
failover_possible cluster_lsn = do
  n ← call observe
  s ← self
  pure (is_failover_possible (node_of s n) cluster_lsn false)

version_of : Option Failover → Option ℕ
version_of none = none
version_of (some f) = f.version

-- `is_healthiest_node`, with the clean-up of the `/failover` key; whether PostgreSQL is a primary is
-- asked once, unless the node holds back
unfoldable pub healthiest : Proc Bool
unfolding version_of
healthiest = do
  n ← call observe
  s ← self
  leads ← if ltb n.now (s.released_leader_key + s.ttl) then pure false else ask is_primary
  let race = is_healthiest_node (record (node_of s n) { is_primary = leads })
  become (record s {
    old_view = record s.old_view {
      cluster = record s.old_view.cluster { members = race.old_members };
    };
  })
  if race.clears_failover
      then act (manual_failover none none (version_of s.view.cluster.failover)) >> pure race.wins
      else pure race.wins
