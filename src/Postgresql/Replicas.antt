-- ===== src/Postgresql/Replicas.antt =====
-- `_ReplicaList` of .patroni/patroni/postgresql/sync.py: the replicas that may be synchronous, in
-- the order in which they are preferred. The rows of `pg_stat_replication` are input.
use otus_hightload.Prelude.{
  ℕ, Bool, not, ◌&&◌, ◌||◌, Option, none, some, List, [], ◌∷◌, if◌then◌else◌,
}
use otus_hightload.Prelude.Int.{ℤ, ltb_ℤ}
use otus_hightload.Prelude.Text.{Text, codes, text_eq}
use otus_hightload.Tags.{nofailover, nosync}
use otus_hightload.Dcs.SyncState.{text_lt}
use otus_hightload.Dcs.Cluster.{Member, Cluster, member_tags, is_running}
use otus_hightload.Collections.NameDict.{NameDict, from_entries, getitem}

-- a row of `pg_stat_replication`
pub record Row : Type 0 where
  pub pid : ℕ
  pub application_name : Text
  pub sync_state : Text
  pub write_lsn : Option ℤ
  pub flush_lsn : Option ℤ
  pub replay_lsn : Option ℤ

-- what the local PostgreSQL answers
pub record Postgres : Type 0 where
  pub synchronous_commit : Text
  pub synchronous_standby_names : Text
  pub stat_replication : List Row
  pub last_operation : ℤ
  pub last_operation_before : ℤ  -- when the change of the names was seen
  pub supports_multiple_sync : Bool

pub record Replica : Type 0 where
  pub pid : ℕ
  pub application_name : Text
  pub sync_state : Text
  pub lsn : ℤ
  pub nofailover : Bool

-- `row[sort_col]`
unfoldable pub sort_column : Text → Row → Option ℤ
sort_column commit row =
    if text_eq commit (codes "remote_apply")
    then row.replay_lsn
    else if text_eq commit (codes "remote_write")
    then row.write_lsn
    else row.flush_lsn

pub members_by_name : List Member → List (Text × Member)
members_by_name [] = []
members_by_name (m ∷ rest) = (m.name, m) ∷ members_by_name rest

-- the replica of a row, where its member and its position are known and it may be synchronous
unfoldable pub replica_of : Option Member → Option ℤ → Row → Option Replica
replica_of none lsn row = none
replica_of (some m) none row = none
replica_of (some m) (some lsn) row =
    if is_running m && not (nosync (member_tags m))
    then some (record {
      pid = row.pid;
      application_name = row.application_name;
      sync_state = row.sync_state;
      lsn = lsn;
      nofailover = nofailover (member_tags m);
    })
    else none

unfoldable pub collect : NameDict Member → Text → List Row → List Replica
collect members commit [] = []
collect members commit (row ∷ rest) =
    let later = collect members commit rest in
    elim (replica_of (getitem members row.application_name) (sort_column commit row) row) [
      | none ↦ later
      | some r ↦ r ∷ later
    ]

-- `(a.sync_state, a.lsn) < (b.sync_state, b.lsn)`
pub comes_after : Replica → Replica → Bool
comes_after a b =
    text_lt a.sync_state b.sync_state || (text_eq a.sync_state b.sync_state && ltb_ℤ a.lsn b.lsn)

unfoldable pub insert : Replica → List Replica → List Replica
insert r [] = r ∷ []
insert r (x ∷ rest) =
    let later = insert r rest in if comes_after r x then x ∷ later else r ∷ x ∷ rest

-- `sort(key=..., reverse=True)`, which keeps the order of equal keys
unfoldable pub sort_replicas : List Replica → List Replica
unfolding insert comes_after
sort_replicas [] = []
sort_replicas (r ∷ rest) = insert r (sort_replicas rest)

unfoldable pub replica_list : Postgres → Cluster → List Replica
unfolding collect replica_of members_by_name
replica_list pg cluster = sort_replicas (
    collect (from_entries (members_by_name cluster.members)) pg.synchronous_commit
      pg.stat_replication)

greatest : ℤ → List Replica → ℤ
greatest n [] = n
greatest n (r ∷ rest) = greatest (if ltb_ℤ n r.lsn then r.lsn else n) rest

unfoldable pub max_lsn : Postgres → List Replica → ℤ
unfolding greatest
max_lsn pg [] = pg.last_operation
max_lsn pg (r ∷ []) = pg.last_operation
max_lsn pg (r ∷ s ∷ rest) = greatest r.lsn (s ∷ rest)
