-- ===== src/Ha/Election/Safety.antt =====
-- Which nodes may not win the leader race of ha.py, whatever the other members answer.
use otus_hightload.Prelude.{true, false, Option, none, some, ◌≡◌, arith, ◌≤◌, ◌+◌, ◌⊎◌, inl, inr}
use otus_hightload.Dcs.SyncState.{matches, is_set}
use otus_hightload.Dcs.Cluster.{Failover}
use otus_hightload.Tags.{nofailover}
use otus_hightload.GlobalConfig.{is_paused}
use otus_hightload.Ha.Node.{Node, names, sync_mode_is_active, failover_request}
use otus_hightload.Ha.Race.{leader_of, candidate_of}
use otus_hightload.Ha.Election.{
  is_healthiest_node, paused_race, role_race, replica_race, automatic_race,
  manual_failover_process_no_leader,
}

-- A node tagged `nofailover` that is not already a primary never wins the race.
pub nofailover_never_wins :
    (n : Node)
    → nofailover n.tags ≡ true
    → n.is_primary ≡ false
    → (is_healthiest_node n).wins ≡ false
unfolding is_healthiest_node
nofailover_never_wins n tagged replica = ground arith

-- The answer of a manual failover in a pause that is a win: the node is the candidate.
paused_manual :
    (n : Node) (f : Failover)
    → is_paused n.config ≡ true
    → (manual_failover_process_no_leader n f).answer ≡ some true
    → names f.candidate n.name ≡ true
unfolding manual_failover_process_no_leader
paused_manual n f p h = ground arith

paused_race_wins :
    (n : Node) (o : Option Failover)
    → is_paused n.config ≡ true
    → n.is_primary ≡ false
    → (paused_race n o).wins ≡ true
    → names (candidate_of o) n.name ≡ true
unfolding paused_race role_race
paused_race_wins n none p replica h = ground arith
paused_race_wins n (some f) p replica h = ground (arith, paused_manual n f)

-- In a pause a replica wins only if the `/failover` key names it as the candidate.
pub paused_wins_by_candidate :
    (n : Node)
    → is_paused n.config ≡ true
    → n.is_primary ≡ false
    → (is_healthiest_node n).wins ≡ true
    → names (candidate_of (failover_request n)) n.name ≡ true
unfolding is_healthiest_node
paused_wins_by_candidate n p replica h = ground (arith, paused_race_wins n (failover_request n))

-- After a failed `pre_promote` script the node stands aside until its `ttl` has passed.
backoff_never_wins :
    (n : Node) → (is_healthiest_node n).wins ≡ true → n.released_leader_key + n.ttl ≤ n.now
unfolding is_healthiest_node
backoff_never_wins n h = ground arith

automatic_wins_in_sync :
    (n : Node)
    → sync_mode_is_active n ≡ true
    → (automatic_race n).wins ≡ true
    → matches n.cluster.sync n.name true ≡ true
unfolding automatic_race
automatic_wins_in_sync n s h = ground arith

replica_wins_in_sync :
    (n : Node) (o : Option Failover)
    → sync_mode_is_active n ≡ true
    → (o ≡ none) ⊎ (is_set (leader_of o) ≡ true)
    → (replica_race n o).wins ≡ true
    → matches n.cluster.sync n.name true ≡ true
unfolding replica_race
replica_wins_in_sync n none s f h = automatic_wins_in_sync n s h
replica_wins_in_sync n (some f) s (inl e) h = cc
replica_wins_in_sync n (some f) s (inr e) h = ground arith

-- In synchronous mode a replica that wins outside a pause is listed in the `/sync` key, as leader
-- or standby, unless a manual failover without a leader named is under way.
pub sync_wins_in_sync :
    (n : Node)
    → sync_mode_is_active n ≡ true
    → is_paused n.config ≡ false
    → n.is_primary ≡ false
    → (failover_request n ≡ none) ⊎ (is_set (leader_of (failover_request n)) ≡ true)
    → (is_healthiest_node n).wins ≡ true
    → matches n.cluster.sync n.name true ≡ true
unfolding is_healthiest_node
sync_wins_in_sync n s p replica f h = ground (arith, replica_wins_in_sync n (failover_request n))
