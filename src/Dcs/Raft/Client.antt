-- ===== src/Dcs/Raft/Client.antt =====
-- The `Raft` class of .patroni/patroni/dcs/raft.py: the writes of a node, over `set` and `delete` of
-- `KVStoreTTL`. A call sees the local copy of the dictionary; a command that is answered is
-- applied to the dictionary as the log has left it at that point.
pub mod Leadership
use otus_hightload.Prelude.{
  ℕ, ◌==◌, Bool, true, false, not, ◌&&◌, ◌||◌, Option, none, some, is_some, if◌then◌else◌,
}
use otus_hightload.Prelude.Text.{Text, text_eq}
use otus_hightload.Collections.Entries.{lookup}
use otus_hightload.Dcs.Raft.{
  Lease, Entry, Store, Requirements, no_requirements, check_requirements, set_applied, set_submits,
  Deletion, refused, delete_applied, starts_with,
}

-- What `retry` is answered: an error, a denial, or the application of the command.
pub data Applied : Type 0 where
  times_out : Applied
  is_denied : Applied
  applied_to : ℕ → Store → Applied

-- What `set` comes to: the `RaftError` that its caller handles itself, `False`, or the new entry.
pub data SetResult : Type 0 where
  raises : SetResult
  fails : SetResult
  stores : Entry → SetResult

set_answer : Option Entry → SetResult
set_answer none = fails
set_answer (some e) = stores e

set_submitted : Bool → Text → Lease → Requirements → Applied → SetResult
unfolding set_answer
set_submitted handles key l r times_out = if handles then fails else raises
set_submitted handles key l r is_denied = fails
set_submitted handles key l r (applied_to applied d) = set_answer (set_applied applied key l r d).1

set_found : Bool → Text → Requirements → Applied → Option Lease → SetResult
unfolding set_submitted
set_found handles key r answer none = fails
set_found handles key r answer (some l) = set_submitted handles key l r answer

unfoldable pub set : ℕ → Text → Text → Option ℕ → Bool → Requirements → Store → Applied → SetResult
unfolding set_found
set now key value ttl handles r local answer =
    set_found handles key r answer (set_submits now key value ttl r local)

delete_submitted : Text → Bool → Requirements → Applied → Deletion
delete_submitted key recursive r times_out = refused
delete_submitted key recursive r is_denied = refused
delete_submitted key recursive r (applied_to applied d) = (delete_applied key recursive r d).1

unfoldable pub delete : Text → Bool → Requirements → Store → Applied → Deletion
unfolding delete_submitted
delete key recursive r local answer =
    if not recursive && not (check_requirements (lookup key local) r)
    then refused
    else delete_submitted key recursive r answer

-- `is not False`
is_stored : SetResult → Option Bool
is_stored raises = none
is_stored fails = some false
is_stored (stores e) = some true

-- A call of the client: when it is made, what the local copy has, and its answer.
pub record Call : Type 0 where
  pub now : ℕ
  pub local : Store
  pub answer : Applied

-- the node's settings
pub record Client : Type 0 where
  pub name : Text
  pub ttl : ℕ
  pub leader_path : Text
  pub sync_path : Text
  pub members_path : Text
  pub member_path : Text
  pub leader_optime_path : Text
  pub status_path : Text
  pub config_path : Text
  pub initialize_path : Text

-- the call that `attempt_to_acquire_leader` makes
unfoldable pub acquire_call : Client → Call → SetResult
acquire_call c k =
    set k.now c.leader_path c.name (some c.ttl) false
      (record no_requirements { prev_exist = some false }) k.local k.answer

-- none is a `RaftError`
unfoldable pub attempt_to_acquire_leader : Client → Call → Option Bool
unfolding is_stored
attempt_to_acquire_leader c k = is_stored (acquire_call c k)

renewed : Client → Call → Option Bool → Option Bool
renewed c again none = none
renewed c again (some ret) =
    if not ret && not (is_some (lookup c.leader_path again.local))
    then attempt_to_acquire_leader c again
    else some ret

-- the renewal that `_update_leader` begins with
unfoldable pub renew_call : Client → Call → SetResult
renew_call c k =
    set k.now c.leader_path c.name (some c.ttl) false
      (record no_requirements { prev_value = some c.name }) k.local k.answer

-- the renewal, and the call that may follow it
unfoldable pub update_leader : Client → Call → Call → Option Bool
unfolding is_stored renewed
update_leader c k again = renewed c again (is_stored (renew_call c k))

unfoldable pub take_leader : Client → Call → Option Bool
unfolding is_stored
take_leader c k =
    is_stored (set k.now c.leader_path c.name (some c.ttl) true no_requirements k.local k.answer)

unfoldable pub touch_member : Client → Text → Call → Option Bool
unfolding is_stored
touch_member c value k =
    is_stored (set k.now c.member_path value (some c.ttl) true no_requirements k.local k.answer)

-- `set_failover_value`, `set_config_value`: the key that a version is the condition of
unfoldable pub set_versioned : Text → Text → Option ℕ → Call → Option Bool
unfolding is_stored
set_versioned key value version k = is_stored (
    set k.now key value none true (record no_requirements { prev_index = version }) k.local
      k.answer)

-- `_write_leader_optime`, `_write_status`, `_write_failsafe`, `set_history_value`
unfoldable pub set_value : Text → Text → Call → Option Bool
unfolding is_stored
set_value key value k = is_stored (set k.now key value none true no_requirements k.local k.answer)

unfoldable pub initialize : Client → Bool → Text → Call → Option Bool
unfolding is_stored
initialize c create_new sysid k = is_stored (
    set k.now c.initialize_path sysid none true
      (record no_requirements { prev_exist = some (not create_new) }) k.local k.answer)

-- none is `False`, or an error, which `set` handles
index_of : SetResult → Option ℕ
index_of raises = none
index_of fails = none
index_of (stores e) = some e.index

unfoldable pub set_sync_state_value : Client → Text → Option ℕ → Call → Option ℕ
unfolding index_of
set_sync_state_value c value version k = index_of (
    set k.now c.sync_path value none true (record no_requirements { prev_index = version }) k.local
      k.answer)

unfoldable pub delete_sync_state : Client → Option ℕ → Call → Deletion
delete_sync_state c version k =
    delete c.sync_path false (record no_requirements { prev_index = version }) k.local k.answer

unfoldable pub delete_leader : Client → Call → Deletion
delete_leader c k =
    delete c.leader_path false (record no_requirements { prev_value = some c.name }) k.local
      k.answer

unfoldable pub cancel_initialization : Client → Call → Deletion
cancel_initialization c k = delete c.initialize_path false no_requirements k.local k.answer

unfoldable pub delete_cluster : Text → Call → Deletion
delete_cluster client_path k = delete client_path true no_requirements k.local k.answer

-- Whether `_on_set` wakes the HA loop. The chain `key == value['created'] == value['updated']`
-- begins with a text beside a number, which Python finds unequal.
text_is_number : Text → ℕ → Bool
text_is_number key n = false

led_by : Client → Option Entry → Bool
led_by c none = false
led_by c (some e) = text_eq e.lease.value c.name

unfoldable pub on_set : Client → Text → Lease → Store → Bool
unfolding text_is_number led_by
on_set c key value d =
    let others = not (led_by c (lookup c.leader_path d)) in
    (text_is_number key value.created
      && (value.created == value.updated)
      && (starts_with c.members_path key || text_eq key c.leader_path && others))
    || (text_eq key c.leader_optime_path || text_eq key c.status_path) && others
    || (text_eq key c.config_path || text_eq key c.sync_path)
