-- ===== src/Ha/Race/Takeover.antt =====
-- `is_failover_possible` and `get_failover_candidates` of ha.py: a failover is called possible
-- exactly when some member that may be promoted is fit to take over.
use mathlib.Core.List.{Memᴰ}
use otus_hightload.Prelude.{
  Bool, true, false, ◌⊎◌, inl, inr, none, List, [], ◌∷◌, ◌≡◌, ◌↔◌, refl, arith, any, select, zero,
  is_some, ◌≢◌, mem-select, mem_of_select, Bool-cases,
}
use otus_hightload.Prelude.Int.{ℤ, pos, ◌-ℤ◌, ◌≤ℤ◌}
use otus_hightload.Tags.{nofailover}
use otus_hightload.Py.{truthy}
use otus_hightload.GlobalConfig.{check_mode, maximum_lag_on_failover}
use otus_hightload.Prelude.Text.{text_eq, codes}
use otus_hightload.Dcs.SyncState.{is_set, matches}
use otus_hightload.Dcs.Cluster.{Member, member_tags, api_url, timeline}
use otus_hightload.Ha.Node.{Node, names, sync_mode_is_active, failover_request}
use otus_hightload.Ha.Status.{
  MemberStatus, status_timeline, failover_limitation, fetch_node_status, fetch_nodes_statuses,
}
use otus_hightload.Ha.Race.{
  is_nonzero, leader_of, candidate_of, is_lagging, is_eligible, can_take_over,
  get_failover_candidates, is_failover_possible,
}

any_fetched :
    (n : Node) (p : MemberStatus → Bool) (members : List Member)
    → any p (fetch_nodes_statuses n members) ≡ true
    → (m : Member) × Memᴰ m members × (p (fetch_node_status n m) ≡ true)
unfolding any fetch_nodes_statuses
any_fetched n p [] h = absurd (ground arith)
any_fetched n p (m ∷ rest) h = elim (Bool-cases (p (fetch_node_status n m))) [
  | inl e ↦ (m, Memᴰ.head refl, e)
  | inr e ↦
      let (m', at, q) = any_fetched n p rest (unfold any fetch_nodes_statuses in ground arith) in
      (m', Memᴰ.tail at, q)
]

any_of_fetched :
    (n : Node) (p : MemberStatus → Bool) (members : List Member) {m : Member}
    → Memᴰ m members
    → p (fetch_node_status n m) ≡ true
    → any p (fetch_nodes_statuses n members) ≡ true
unfolding any fetch_nodes_statuses
any_of_fetched n p [] at h = elim at [ ]
any_of_fetched n p (x ∷ rest) (Memᴰ.head e) h = let h' = rw e at h in ground arith
any_of_fetched n p (x ∷ rest) (Memᴰ.tail at) h =
    let ih = any_of_fetched n p rest at h in ground (arith, ih)

-- The member may be picked: it is another node, which may be promoted and can be asked; it is the
-- candidate that was asked for, if one was, and not the one to exclude; in synchronous mode it is a
-- standby of the `/sync` key, unless a failover without a leader was asked for.
pub record IsCandidate (n : Node) (exclude : Bool) (m : Member) : Type 0 where
  pub other : text_eq m.name n.name ≡ false
  pub promotable : nofailover (member_tags m) ≡ false
  pub has_api : truthy (api_url m) ≡ true
  pub asked_for :
      (is_set (candidate_of (failover_request n)) ≡ false)
      ⊎ (names (candidate_of (failover_request n)) m.name ≡ true)
  pub not_excluded : (exclude ≡ false) ⊎ (names (candidate_of (failover_request n)) m.name ≡ false)
  pub in_sync :
      (sync_mode_is_active n ≡ false)
      ⊎ (matches n.cluster.sync m.name false ≡ true)
      ⊎ (is_some (failover_request n) ≡ true) × (is_set (leader_of (failover_request n)) ≡ false)

-- The answer of the member lets it lead: nothing limits it; it has reached the position that was
-- given, or, where none was, it is not further behind the last known one than is allowed; and where
-- timelines are checked, it has one that is not behind the one of the cluster.
pub record CanLead (n : Node) (lsn : ℤ) (st : MemberStatus) : Type 0 where
  pub unlimited : failover_limitation st ≡ none
  pub reached : (lsn ≡ pos 0) ⊎ (lsn ≤ℤ st.wal_position)
  pub near :
      (lsn ≢ pos 0)
      ⊎ ((n.cluster.status.last_lsn -ℤ st.wal_position) ≤ℤ maximum_lag_on_failover n.config)
  pub on_timeline :
      (check_mode n.config (codes "check_timeline") ≡ false)
      ⊎ (status_timeline st ≢ pos 0) × (timeline n.cluster ≤ℤ status_timeline st)

is_eligible-IsCandidate :
    (n : Node) (exclude : Bool) (m : Member)
    → (is_eligible n exclude m ≡ true) ↔ IsCandidate n exclude m
unfolding is_eligible
is_eligible-IsCandidate n exclude m = (
  λ h. record {
    other = ground arith;
    promotable = ground arith;
    has_api = ground arith;
    asked_for = ground arith;
    not_excluded = ground arith;
    in_sync = ground arith;
  },
  λ c. ground (arith, c.other, c.promotable, c.has_api, c.asked_for, c.not_excluded, c.in_sync),
)

zero_of : (x : ℤ) → is_nonzero x ≡ false → x ≡ pos 0
unfolding is_nonzero
zero_of (pos zero) h = refl
zero_of x h = cc

of_zero : (x : ℤ) → x ≡ pos 0 → is_nonzero x ≡ false
unfolding is_nonzero
of_zero x h = rw h refl

nonzero_of : (x : ℤ) → is_nonzero x ≡ true → x ≢ pos 0
nonzero_of x h e = absurd (cc (h, of_zero x e))

of_nonzero : (x : ℤ) → x ≢ pos 0 → is_nonzero x ≡ true
of_nonzero x h = elim (Bool-cases (is_nonzero x)) [ inl e ↦ e | inr e ↦ absurd (h (zero_of x e)) ]

can_take_over-CanLead :
    (n : Node) (lsn : ℤ) (st : MemberStatus) → can_take_over n lsn st ≡ true → CanLead n lsn st
unfolding can_take_over is_lagging
can_take_over-CanLead n lsn st h = elim (Bool-cases (is_nonzero lsn)) [
  | inl e ↦ record {
    unlimited = ground arith;
    reached = inr (ground arith);
    near = inl (nonzero_of lsn e);
    on_timeline = ground (arith, nonzero_of (status_timeline st));
  }
  | inr e ↦ record {
    unlimited = ground arith;
    reached = inl (zero_of lsn e);
    near = inr (ground arith);
    on_timeline = ground (arith, nonzero_of (status_timeline st));
  }
]

CanLead-can_take_over :
    (n : Node) (lsn : ℤ) (st : MemberStatus) → CanLead n lsn st → can_take_over n lsn st ≡ true
unfolding can_take_over is_lagging
CanLead-can_take_over n lsn st c =
    let reached : (is_nonzero lsn ≡ false) ⊎ (lsn ≤ℤ st.wal_position) = elim c.reached [
      | inl e ↦ inl (of_zero lsn e)
      | inr e ↦ inr e
    ] in
    let near : (is_nonzero lsn ≡ true)
        ⊎ ((n.cluster.status.last_lsn -ℤ st.wal_position) ≤ℤ maximum_lag_on_failover n.config) =
      elim c.near [ inl e ↦ inl (of_nonzero lsn e) | inr e ↦ inr e ] in
    let on_timeline : (check_mode n.config (codes "check_timeline") ≡ false)
        ⊎ (is_nonzero (status_timeline st) ≡ true) × (timeline n.cluster ≤ℤ status_timeline st) =
      elim c.on_timeline [
        | inl e ↦ inl e
        | inr (e, f) ↦ inr (of_nonzero (status_timeline st) e, f)
      ] in
    ground (arith, c.unlimited, reached, near, on_timeline)

-- A failover is possible exactly when some member of the cluster may be picked and its answer lets it
-- lead: it is another node without the nofailover tag, with an API, the candidate that was asked
-- for if one was, not the one to exclude, and in synchronous mode a standby of the /sync key or asked
-- for without a leader; nothing limits it, it has reached the given position, or lags no more than
-- allowed where none is given, and its timeline, where it is checked, is not behind.
pub is_failover_possible_iff :
    (n : Node) (lsn : ℤ) (exclude : Bool)
    → (is_failover_possible n lsn exclude ≡ true) ↔ (
        (m : Member) × Memᴰ m n.cluster.members
        × IsCandidate n exclude m
        × CanLead n lsn (fetch_node_status n m))
unfolding is_failover_possible get_failover_candidates
is_failover_possible_iff n lsn exclude = (
  λ h.
      let (m, at, takes) =
        any_fetched n (can_take_over n lsn) (select (is_eligible n exclude) n.cluster.members) h in
      let (listed, eligible) = mem-select (is_eligible n exclude) n.cluster.members at in
      (
        m,
        listed,
        (is_eligible-IsCandidate n exclude m).0 eligible,
        can_take_over-CanLead n lsn _ takes,
      ),
  λ (m, listed, picked, leads).
      any_of_fetched n (can_take_over n lsn) (select (is_eligible n exclude) n.cluster.members)
        (mem_of_select (is_eligible n exclude) n.cluster.members listed
          ((is_eligible-IsCandidate n exclude m).1 picked))
        (CanLead-can_take_over n lsn (fetch_node_status n m) leads),
)

-- In synchronous mode, where no failover is requested or the request names a leader, a failover is
-- possible only to a standby of the /sync key that is another node and that nothing limits.
pub takeover_in_sync :
    (n : Node) (lsn : ℤ) (exclude : Bool)
    → sync_mode_is_active n ≡ true
    → (failover_request n ≡ none) ⊎ (is_set (leader_of (failover_request n)) ≡ true)
    → is_failover_possible n lsn exclude ≡ true
    → (m : Member) × Memᴰ m n.cluster.members
      × (matches n.cluster.sync m.name false ≡ true)
      × (text_eq m.name n.name ≡ false)
      × (failover_limitation (fetch_node_status n m) ≡ none)
takeover_in_sync n lsn exclude s f h =
    let (m, listed, picked, leads) = (is_failover_possible_iff n lsn exclude).0 h in
    (m, listed, ground (arith, picked.in_sync), picked.other, leads.unlimited)
