-- ===== src/Api/Health/Replica.antt =====
-- What a node is that .patroni/patroni/api.py offers for read-only connections.
use otus_hightload.Api.Health.Routes.{passes, verdict, replica_lem}
use otus_hightload.Prelude.{
  ◌&&◌, is_some, Bool, is_some, Bool-cases, true, false, Option, none, some, ◌≡◌, ◌⊎◌, inl, inr,
  refl, arith,
}
use otus_hightload.Prelude.Int.{ℤ, pos, ◌+ℤ◌, ◌≤ℤ◌}
use otus_hightload.Prelude.Text.{codes, text_eq, text_eq_iff}
use otus_hightload.Api.Status.{
  known, is_up, row_role, base_response, response_of, Server, Response, Row, get_postgresql_status,
  response_of_row, response_without_row,
}
use otus_hightload.Api.Health.{
  is_standby_cluster, match_tags, replica_code, noloadbalance, status_codes, is_zero, Query,
  is_lagging, leader_optime, max_replica_lag, replayed_location, exceeds_lag,
}

-- as much of the WAL is replayed as the query asks for
pub CaughtUp : Server → Query → Option ℤ → Type 0
CaughtUp s query none = leader_optime s ≡ pos 0
CaughtUp s query (some replayed) =
    (leader_optime s ≡ pos 0) ⊎ (leader_optime s ≤ℤ replayed +ℤ max_replica_lag query)

running_of : (r : Response) → text_eq r.state (codes "running") ≡ true → r.state ≡ codes "running"
running_of r h = (text_eq_iff r.state (codes "running")).0 h

without_row_running :
    (s : Server) → text_eq (response_without_row s).state (codes "running") ≡ false
unfolding response_without_row base_response
without_row_running s = elim (Bool-cases (text_eq s.pg_state (codes "running"))) [
  | inl e ↦ rw e (unfold text_eq in refl)
  | inr e ↦ rw (e, e)
]

row_of_answer :
    (s : Server) (o : Option Row)
    → text_eq (response_of s o).role (codes "replica") ≡ true
    → text_eq (response_of s o).state (codes "running") ≡ true
    → (row : Row) × (o ≡ some row)
      × (row.timeline ≡ 0)
      × (s.pg_state ≡ codes "running")
      × (response_of s o ≡ response_of_row s row)
unfolding response_of
row_of_answer s none role state = cc (without_row_running s)
row_of_answer s (some row) role state = (
  row,
  refl,
  unfold response_of_row row_role base_response text_eq in ground arith,
  (text_eq_iff s.pg_state (codes "running")).0 (unfold response_of_row base_response in state),
  refl,
)

-- A running replica has answered the query.
answered_row :
    (s : Server)
    → text_eq (get_postgresql_status s).role (codes "replica") ≡ true
    → text_eq (get_postgresql_status s).state (codes "running") ≡ true
    → (row : Row) × (s.row ≡ some row)
      × (row.timeline ≡ 0)
      × (s.pg_state ≡ codes "running")
      × (get_postgresql_status s ≡ response_of_row s row)
unfolding get_postgresql_status
answered_row s role state = elim (Bool-cases (is_up s.pg_state)) [
  | inl e ↦ rw e (row_of_answer s s.row (rw e at role) (rw e at state))
  | inr e ↦ cc (without_row_running s, rw e at state)
]

caught_up :
    (s : Server) (query : Query) (row : Row)
    → row.timeline ≡ 0
    → is_lagging s (response_of_row s row) query ≡ some false
    → CaughtUp s query row.replayed
unfolding is_lagging is_zero exceeds_lag response_of_row replayed_location CaughtUp
caught_up s query row zero h = ground arith

-- what the verdict on /replica needs
verdict_parts :
    (s : Server) (query : Query) (r : Response) (l : Option Bool)
    → verdict s query r l (λ c. (c.replica, false)) ≡ true
    → (l ≡ some false)
      × (text_eq r.role (codes "replica") ≡ true)
      × (text_eq r.state (codes "running") ≡ true)
      × (noloadbalance s.tags ≡ false)
      × (match_tags s.tags query ≡ true)
      × ((is_some (known s) && s.is_leader && is_standby_cluster s.config) ≡ false)
unfolding verdict status_codes replica_code
verdict_parts s query r none h = cc
verdict_parts s query r (some true) h = absurd (ground arith)
verdict_parts s query r (some false) h =
    (refl, ground arith, ground arith, ground arith, ground arith, ground arith)

-- what a node is that answers 200 on /replica
pub Serves : Server → Query → Row → Type 0
Serves s query row =
    (s.row ≡ some row)
    × (row.timeline ≡ 0)
    × (s.pg_state ≡ codes "running")
    × CaughtUp s query row.replayed
    × (noloadbalance s.tags ≡ false)
    × (match_tags s.tags query ≡ true)
    × ((is_some (known s) && s.is_leader && is_standby_cluster s.config) ≡ false)

-- A node that answers 200 on /replica runs PostgreSQL, whose status query has returned a row, in
-- recovery; it has replayed as much as the `lag` parameter asks for, where the position of the leader
-- is known; it is open to load balancing, has the tags that the query asks for, and, where it has a
-- view of the cluster, is not the leader of a standby cluster.
pub replica-Serves :
    (s : Server) (query : Query)
    → passes s query "/replica" ≡ true
    → (row : Row) × Serves s query row
unfolding Serves
replica-Serves s query h =
    let (lag, role, state, open_, tags, own) =
      verdict_parts s query _ _ (rw (replica_lem s query) at h) in
    let (row, found, recovery, running, eq) = answered_row s role state in
    (
      row,
      (found, recovery, running, caught_up s query row recovery (rw eq at lag), open_, tags, own),
    )
