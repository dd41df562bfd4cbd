-- ===== src/Ha/Node.antt =====
-- What the `Ha` object of ha.py knows while it decides: its configuration, its view of the
-- cluster, what the local PostgreSQL reports, and the REST API of the other members, which is a
-- function into their answers (`none`: no answer, or no JSON dictionary).
use otus_hightload.Prelude.{ℕ, Bool, Option, none, some, not, ◌&&◌, false, List, if◌then◌else◌}
use otus_hightload.Prelude.Int.{ℤ}
use otus_hightload.Prelude.Text.{Text, text_eq}
use otus_hightload.Py.{Fields}
use otus_hightload.Dcs.SyncState.{is_empty}
use otus_hightload.Dcs.Cluster.{Member, Cluster, Failover, is_requested}
use otus_hightload.GlobalConfig.{is_synchronous_mode}

pub record Node : Type 0 where
  pub name : Text  -- state_handler.name
  pub tags : Fields  -- patroni.tags
  pub config : Fields  -- the global configuration
  pub cluster : Cluster
  pub old_members : List Member  -- old_cluster.members
  pub old_is_current : Bool  -- old_cluster is the same object as cluster
  pub failsafe : Option Fields  -- dcs.failsafe, where it is a dictionary
  pub is_primary : Bool
  pub last_operation : ℤ
  pub primary_timeline : ℤ
  pub replica_timeline : ℤ → Option ℤ  -- state_handler.replica_cached_timeline
  pub sysid : Text
  pub watchdog_is_healthy : Bool
  pub now : ℕ
  pub ttl : ℕ
  pub released_leader_key : ℕ  -- _released_leader_key_timestamp
  pub request : Member → Option Fields

-- `self.is_synchronous_mode() and not self.cluster.sync.is_empty`
unfoldable pub sync_mode_is_active : Node → Bool
sync_mode_is_active n = is_synchronous_mode n.config && not (is_empty n.cluster.sync)

-- the `/failover` key, where it asks for something
requested : Option Failover → Option Failover
requested none = none
requested (some f) = if is_requested f then some f else none

unfoldable pub failover_request : Node → Option Failover
unfolding requested
failover_request n = requested n.cluster.failover

-- an optional name is this name
abbrev pub names : Option Text → Text → Bool
names none name = false
names (some s) name = text_eq s name
