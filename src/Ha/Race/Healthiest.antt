-- ===== src/Ha/Race/Healthiest.antt =====
-- `_is_healthiest_node` of ha.py against a description of the node that may lead, and two nodes
-- that race against each other.
use mathlib.Core.List.{Memᴰ}
use otus_hightload.Prelude.{
  Bool, true, false, ◌⊎◌, none, some, List, [], ◌∷◌, ◌≡◌, ◌≢◌, ◌↔◌, refl, arith, ap, sym, ◌∙◌, all,
  all-mem, all_of_mem, select, mem-select, mem_of_select, ◌&&◌,
}
use otus_hightload.Prelude.Int.{◌≤ℤ◌, eq_of_parts}
use otus_hightload.Tags.{failover_priority}
use otus_hightload.Dcs.SyncState.{leader_matches}
use otus_hightload.Dcs.Cluster.{Member}
use otus_hightload.Ha.Node.{Node, sync_mode_is_active}
use otus_hightload.Ha.Status.{
  MemberStatus, failover_limitation, status_tags, fetch_node_status, fetch_nodes_statuses,
}
use otus_hightload.Ha.Race.{is_rival, is_lagging, timeline_stops, lets_us_lead, is_healthiest_among}

-- The member was the leader in synchronous mode: it may be ahead.
abbrev pub IsFormerLeader : Node → Member → Type 0
IsFormerLeader n m = (sync_mode_is_active n ≡ true) × (leader_matches n.cluster.sync m.name ≡ true)

-- A promotable member gives way: it is no primary, it is not ahead (unless it was the leader), and
-- at the same position it has no higher priority.
pub record GivesWay (n : Node) (st : MemberStatus) : Type 0 where
  pub not_primary : st.in_recovery ≢ some false
  pub not_ahead : (st.wal_position ≤ℤ n.last_operation) ⊎ IsFormerLeader n st.member
  pub not_preferred :
      st.wal_position ≡ n.last_operation
      → failover_priority (status_tags st) ≤ℤ failover_priority n.tags

lets_us_lead-GivesWay :
    (n : Node) (st : MemberStatus)
    → failover_limitation st ≡ none
    → lets_us_lead n st ≡ true
    → GivesWay n st
unfolding lets_us_lead
lets_us_lead-GivesWay n st free h = record {
  not_primary = ground arith;
  not_ahead = ground arith;
  not_preferred = λ e. ground arith;
}

GivesWay-lets_us_lead :
    (n : Node) (st : MemberStatus)
    → (failover_limitation st ≡ none → GivesWay n st)
    → lets_us_lead n st ≡ true
unfolding lets_us_lead
GivesWay-lets_us_lead n st h = ground arith

all_fetched :
    (n : Node) (p : MemberStatus → Bool) (members : List Member)
    → all p (fetch_nodes_statuses n members) ≡ all (λ m. p (fetch_node_status n m)) members
unfolding all fetch_nodes_statuses
all_fetched n p [] = refl
all_fetched n p (m ∷ rest) = ap (λ b. p (fetch_node_status n m) && b) (all_fetched n p rest)

-- Every member that is asked and that could be promoted gives way.
abbrev pub RivalsGiveWay : Node → List Member → Type 0
RivalsGiveWay n members =
    (m : Member)
    → Memᴰ m members
    → is_rival n m ≡ true
    → failover_limitation (fetch_node_status n m) ≡ none
    → GivesWay n (fetch_node_status n m)

rivals_sound :
    (n : Node) (members : List Member)
    → all (lets_us_lead n) (fetch_nodes_statuses n (select (is_rival n) members)) ≡ true
    → RivalsGiveWay n members
rivals_sound n members h m at rival free = lets_us_lead-GivesWay n (fetch_node_status n m) free (
    all-mem (λ m. lets_us_lead n (fetch_node_status n m)) (select (is_rival n) members)
      (rw (all_fetched n (lets_us_lead n) (select (is_rival n) members)) at h)
      (mem_of_select (is_rival n) members at rival))

rivals_complete :
    (n : Node) (members : List Member)
    → RivalsGiveWay n members
    → all (lets_us_lead n) (fetch_nodes_statuses n (select (is_rival n) members)) ≡ true
rivals_complete n members h = rw (all_fetched n (lets_us_lead n) (select (is_rival n) members)) (
    all_of_mem _ _ λ m at.
      let (listed, rival) = mem-select (is_rival n) members at in
      GivesWay-lets_us_lead n (fetch_node_status n m) (h m listed rival))

-- The node passes its own checks: it does not lag (where that is asked) and its timeline holds.
abbrev pub IsFit : Node → Bool → Type 0
IsFit n check_lag =
    ((check_lag && is_lagging n n.last_operation) ≡ false) × (timeline_stops n ≡ false)

-- A node is the healthiest of some members exactly when it passes its own checks and every rival
-- that could be promoted gives way to it.
pub is_healthiest_among_iff :
    (n : Node) (members : List Member) (check_lag : Bool)
    → (is_healthiest_among n members check_lag ≡ true)
      ↔ ((IsFit n check_lag) × RivalsGiveWay n members)
unfolding is_healthiest_among
is_healthiest_among_iff n members check_lag = (
  λ h. ((ground arith, ground arith), rivals_sound n members (ground arith)),
  λ h. ground (arith, rivals_complete n members h.1),
)

-- `a` asks about `m`, and gets an answer that says where `b` stands. `m` is not the former leader
-- that synchronous mode lets be ahead.
pub record Sees (a b : Node) (m : Member) (members : List Member) : Type 0 where
  pub listed : Memᴰ m members
  pub rival : is_rival a m ≡ true
  pub promotable : failover_limitation (fetch_node_status a m) ≡ none
  pub position : (fetch_node_status a m).wal_position ≡ b.last_operation
  pub priority : failover_priority (status_tags (fetch_node_status a m)) ≡ failover_priority b.tags
  pub counted :
      (sync_mode_is_active a ≡ false)
      ⊎ (leader_matches a.cluster.sync (fetch_node_status a m).member.name ≡ false)

winner_not_behind :
    (a b : Node) (m : Member) (members : List Member) (lag : Bool)
    → Sees a b m members
    → is_healthiest_among a members lag ≡ true
    → b.last_operation ≤ℤ a.last_operation
winner_not_behind a b m members lag s h =
    let gives = ((is_healthiest_among_iff a members lag).0 h).1 m s.listed s.rival s.promotable in
    ground (arith, gives.not_ahead, s.position, s.counted)

winner_preferred :
    (a b : Node) (m : Member) (members : List Member) (lag : Bool)
    → Sees a b m members
    → a.last_operation ≡ b.last_operation
    → is_healthiest_among a members lag ≡ true
    → failover_priority b.tags ≤ℤ failover_priority a.tags
winner_preferred a b m members lag s e h =
    let gives = ((is_healthiest_among_iff a members lag).0 h).1 m s.listed s.rival s.promotable in
    rw (← s.priority) (gives.not_preferred (s.position ∙ sym e))

-- Two nodes that both count as the healthiest are at the same WAL position with the same failover
-- priority, if each of them asks the other, learns its position and its priority, finds nothing that
-- keeps it from being promoted, and is not in synchronous mode with the other as the leader of the
-- /sync key.
pub race_winners_level :
    (a b : Node) (ma mb : Member) (as_seen bs_seen : List Member) (lag_a lag_b : Bool)
    → Sees a b mb as_seen
    → Sees b a ma bs_seen
    → is_healthiest_among a as_seen lag_a ≡ true
    → is_healthiest_among b bs_seen lag_b ≡ true
    → (a.last_operation ≡ b.last_operation) × (failover_priority a.tags ≡ failover_priority b.tags)
race_winners_level a b ma mb as_seen bs_seen lag_a lag_b sa sb wa wb =
    let level = eq_of_parts a.last_operation b.last_operation (
      omega (
        arith,
        winner_not_behind a b mb as_seen lag_a sa wa,
        winner_not_behind b a ma bs_seen lag_b sb wb,
      )) in
    (
      level,
      eq_of_parts (failover_priority a.tags) (failover_priority b.tags) (
          omega (
            arith,
            winner_preferred a b mb as_seen lag_a sa level wa,
            winner_preferred b a ma bs_seen lag_b sb (sym level) wb,
          )),
    )
