-- ===== src/Api/Failover/Checks.antt =====
-- What a request for a failover or a switchover has been checked for in .patroni/patroni/api.py when
-- the key is written.
use mathlib.Core.Path.{subst, sym}
use otus_hightload.Prelude.{
  Bool, Option-cases, true, false, not, ◌&&◌, ◌||◌, Option, none, some, is_some, List, [], ◌∷◌, ◌≡◌,
  inl, inr, refl, arith, Memᴰ, String, select, Bool-cases, mem-select,
}
use otus_hightload.Prelude.Text.{Text, text_eq, text_eq_iff, non_empty, codes}
use otus_hightload.Py.{Fields, truthy}
use otus_hightload.GlobalConfig.{is_synchronous_mode}
use otus_hightload.Dcs.SyncState.{matches}
use otus_hightload.Dcs.Cluster.{Member, api_url}
use otus_hightload.Ha.Node.{Node}
use otus_hightload.Ha.Status.{fetch_node_status, fetch_nodes_statuses, failover_limitation}
use otus_hightload.Api.Failover.{
  Action, failover, switchover, World, Progress, is_leader_name, candidates, is_good, any_good,
  of_candidates, is_failover_possible, with_schedule, with_names, with_nodes, refuse, impossible,
  effective_action, check_request, finish, name_in, candidate_in, do_post_failover,
}

pub is_failover : Action → Bool
is_failover failover = true
is_failover switchover = false

-- The status of one of the members is good.
good_fetched :
    (n : Node) (ms : List Member)
    → any_good (fetch_nodes_statuses n ms) ≡ none
    → (m : Member) × Memᴰ m ms × (failover_limitation (fetch_node_status n m) ≡ none)
unfolding fetch_nodes_statuses any_good is_good
good_fetched n [] h = cc
good_fetched n (m ∷ rest) h = elim (Option-cases (failover_limitation (fetch_node_status n m))) [
  | inl e ↦ (m, Memᴰ.head refl, e)
  | inr (why, e) ↦
      let (m', at, good) = good_fetched n rest (ground arith) in (m', Memᴰ.tail at, good)
]

-- what the checks ask of the node that takes over
pub record IsFit (w : World) (candidate : Text) (action : Action) (m : Member) : Type 0 where
  pub listed : Memᴰ m w.cluster.members
  pub good : failover_limitation (fetch_node_status w.node m) ≡ none
  pub asked_for : (not (non_empty candidate) || text_eq m.name candidate) ≡ true
  pub synchronous :
      (not (is_synchronous_mode w.config)
        || is_failover action && non_empty candidate
        || matches w.cluster.sync m.name false)
      ≡ true

named_listed :
    (w : World) (candidate : Text) (action : Action) (m : Member)
    → non_empty candidate ≡ true
    → Memᴰ m (candidates w.cluster w.config candidate action).1
    → Memᴰ m (select (λ k. text_eq k.name candidate) w.cluster.members)
      × ((not (is_synchronous_mode w.config)
            || is_failover action
            || matches w.cluster.sync candidate false)
          ≡ true)
unfolding candidates is_failover
named_listed w candidate failover m named at = (rw named at at, ground arith)
named_listed w candidate switchover m named at =
    elim (Bool-cases
      (is_synchronous_mode w.config && not (matches w.cluster.sync candidate false))) [
        | inl bad ↦ elim (rw (named, bad) at at) [ ]
        | inr fine ↦ (rw (named, fine) at at, ground arith)
      ]

named-IsFit :
    (w : World) (candidate : Text) (action : Action) (m : Member)
    → non_empty candidate ≡ true
    → Memᴰ m (candidates w.cluster w.config candidate action).1
    → failover_limitation (fetch_node_status w.node m) ≡ none
    → IsFit w candidate action m
named-IsFit w candidate action m named at good =
    let (by_name, sync_ok) = named_listed w candidate action m named at in
    let (listed, e) =
      mem-select (λ k. text_eq k.name candidate) w.cluster.members {a = m} by_name in
    let sync_ok' =
      subst
        (λ t.
          (not (is_synchronous_mode w.config)
            || is_failover action
            || matches w.cluster.sync t false)
          ≡ true)
        (sym ((text_eq_iff m.name candidate).0 e)) sync_ok in
    record { listed = listed; good = good; asked_for = ground arith; synchronous = ground arith }

listed-IsFit :
    (w : World) (candidate : Text) (action : Action) (m : Member)
    → Memᴰ m (candidates w.cluster w.config candidate action).1
    → failover_limitation (fetch_node_status w.node m) ≡ none
    → IsFit w candidate action m
unfolding candidates
listed-IsFit w candidate action m at good = elim (Bool-cases (non_empty candidate)) [
  | inl named ↦ named-IsFit w candidate action m named at good
  | inr anyone ↦ elim (Bool-cases (is_synchronous_mode w.config)) [
    | inl sync ↦
        let (listed, e) =
          mem-select (λ k. matches w.cluster.sync k.name false) w.cluster.members
            (rw (anyone, sync) at at) in
        record {
          listed = listed;
          good = good;
          asked_for = ground arith;
          synchronous = ground arith;
        }
    | inr async ↦
        let (listed, _) =
          mem-select
            (λ k.
              not (is_some w.cluster.leader)
              || not (is_leader_name w.cluster.leader k.name) && truthy (api_url k))
            w.cluster.members (rw (anyone, async) at at) in
        record {
          listed = listed;
          good = good;
          asked_for = ground arith;
          synchronous = ground arith;
        }
  ]
]

-- The reason is there to be given wherever no node is listed.
reason_given :
    (w : World) (candidate : Text) (action : Action)
    → is_some (candidates w.cluster w.config candidate action).0 ≡ true
unfolding candidates
reason_given w candidate failover = ground arith
reason_given w candidate switchover = ground arith

fit_of_candidates :
    (n : Node) (c : Option String × List Member)
    → is_some c.0 ≡ true
    → of_candidates n c ≡ none
    → (m : Member) × Memᴰ m c.1 × (failover_limitation (fetch_node_status n m) ≡ none)
unfolding of_candidates
fit_of_candidates n (reason, []) h e = cc
fit_of_candidates n (reason, m ∷ rest) h e = good_fetched n (m ∷ rest) e

-- Where the action is possible, the leader is the one that is named, and a node is fit.
possible-IsFit :
    (w : World) (leader candidate : Text) (action : Action)
    → is_failover_possible w leader candidate action ≡ none
    → ((non_empty leader && not (is_leader_name w.cluster.leader leader)) ≡ false)
      × (m : Member) × IsFit w candidate action m
unfolding is_failover_possible
possible-IsFit w leader candidate action h =
    elim (Bool-cases (non_empty leader && not (is_leader_name w.cluster.leader leader))) [
      | inl bad ↦ cc (rw bad at h)
      | inr fine ↦
          let (m, at, good) =
            fit_of_candidates w.node (candidates w.cluster w.config candidate action)
              (reason_given w candidate action) (rw fine at h) in
          (fine, m, listed-IsFit w candidate action m at good)
    ]

no_error :
    (p : Progress) (o : Option String) → (impossible p o).error ≡ none → p.error ≡ none → o ≡ none
unfolding impossible
no_error p none h e = refl
no_error p (some why) h e = cc

-- What comes before the check of the nodes.
names_passed :
    (w : World) (leader candidate : Text) (p : Progress)
    → (with_names w leader candidate p).error ≡ none
    → (p.error ≡ none) × (text_eq leader candidate ≡ false) × (with_names w leader candidate p ≡ p)
unfolding with_names refuse
names_passed w leader candidate p h = (ground arith, ground arith, ground arith)

nodes_passed :
    (w : World) (leader candidate : Text) (action : Action) (p : Progress)
    → (with_nodes w leader candidate action p).error ≡ none
    → (with_nodes w leader candidate action p).scheduled_at ≡ none
    → (p.error ≡ none) × (is_failover_possible w leader candidate action ≡ none)
unfolding with_nodes impossible
nodes_passed w leader candidate action p h at = (ground arith, ground arith)

-- Without a time nothing is scheduled.
unscheduled :
    (w : World) (action : Action) (leader candidate : Text)
    → (check_request w action leader candidate []).scheduled_at ≡ none
unfolding check_request with_nodes with_names with_schedule impossible refuse
unscheduled w action leader candidate = ground arith

immediate_checked :
    (w : World) (action : Action) (leader candidate : Text)
    → (check_request w action leader candidate []).error ≡ none
    → ((non_empty leader && not (is_leader_name w.cluster.leader leader)) ≡ false)
      × (text_eq leader candidate ≡ false)
      × (m : Member) × IsFit w candidate (effective_action action leader) m
immediate_checked w action leader candidate h =
    let at = unscheduled w action leader candidate in
    unfold check_request in
    (let (early, possible) = nodes_passed w leader candidate _ _ h at in
      let (_, apart, _) = names_passed w leader candidate _ early in
      let (named, m, fit) = possible-IsFit w leader candidate _ possible in (named, apart, m, fit))

finish-writes :
    (w : World) (candidate : Text) (p : Progress) (o : Option String)
    → (finish w candidate p o).writes ≡ true
    → o ≡ none
unfolding finish
finish-writes w candidate p none h = refl
finish-writes w candidate p (some why) h = cc

-- what is known of a request without a time whose key is written
pub IsChecked : World → Action → Fields → Type 0
IsChecked w action request =
    let leader = name_in request (codes "leader") in
    let candidate = candidate_in request in
    ((non_empty leader && not (is_leader_name w.cluster.leader leader)) ≡ false)
    × (text_eq leader candidate ≡ false)
    × (m : Member) × IsFit w candidate (effective_action action leader) m

-- When a request without a time has the key written: the leader that it names, if it names one, is
-- that of the cluster; it does not name the same node as leader and as candidate; and there is a
-- member that may be promoted, which is the candidate, if it names one, and is listed in the /sync
-- key, if synchronous mode is on and the action is a switchover, or names no candidate. A
-- failover that names a leader is a switchover.
pub failover-IsChecked :
    (w : World) (action : Action) (request : Fields)
    → name_in request (codes "scheduled_at") ≡ []
    → (do_post_failover w action request).writes ≡ true
    → IsChecked w action request
unfolding do_post_failover IsChecked
failover-IsChecked w action request at h =
    let leader = name_in request (codes "leader") in
    let candidate = candidate_in request in
    let p = check_request w action leader candidate (name_in request (codes "scheduled_at")) in
    let passed = finish-writes w candidate p p.error h in
    immediate_checked w action leader candidate
      (subst (λ t. (check_request w action leader candidate t).error ≡ none) at passed)
