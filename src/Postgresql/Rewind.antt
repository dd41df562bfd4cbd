-- ===== src/Postgresql/Rewind.antt =====
-- The state of a rewind and its execution, of .patroni/patroni/postgresql/rewind.py. What the objects
-- answer is input.
pub mod Local
pub mod Check
pub mod Branch
pub mod Verdict
pub mod Owner
use otus_hightload.Prelude.{Bool, true, false, not, ◌&&◌, ◌||◌, Option, none, some, if◌then◌else◌}
use otus_hightload.Prelude.Text.{Text, codes, text_eq}
use otus_hightload.Postgresql.Rewind.Local.{Server, or_text}
use otus_hightload.Postgresql.Rewind.Check.{
  RewindStatus, initial, check, need, success, failed, Primary, check_timeline_and_lsn,
}

unfoldable pub configuration_allows_rewind : (Text → Option Text) → Bool
unfolding or_text
configuration_allows_rewind control =
    text_eq (or_text (codes "off") (control (codes "wal_log_hints setting"))) (codes "on")
    || not
        (text_eq (or_text (codes "0") (control (codes "Data page checksum version"))) (codes "0"))

unfoldable pub can_rewind : Server → Bool
can_rewind s = s.use_pg_rewind && s.has_pg_rewind && configuration_allows_rewind s.controldata

unfoldable pub can_rewind_or_reinitialize_allowed : Server → Bool
can_rewind_or_reinitialize_allowed s = s.remove_on_diverged || can_rewind s

unfoldable pub is_need : RewindStatus → Bool
is_need need = true
is_need _ = false

unfoldable pub is_check : RewindStatus → Bool
is_check check = true
is_check _ = false

unfoldable pub trigger_check_diverged_lsn : Server → RewindStatus → RewindStatus
trigger_check_diverged_lsn s state =
    if can_rewind_or_reinitialize_allowed s && not (is_need state) then check else state

-- the member to rewind from
pub record Source : Type 0 where
  pub name : Text
  pub has_conn_url : Bool
  pub primary : Primary

needed : Option RewindStatus → Option (Bool × RewindStatus)
needed none = none
needed (some state) = some (is_need state, state)

-- whether a rewind is needed, and the state; none is the exception of the check
unfoldable pub rewind_or_reinitialize_needed_and_possible :
    Server → Text → Option Source → RewindStatus → Option (Bool × RewindStatus)
unfolding needed
rewind_or_reinitialize_needed_and_possible s name none state = some (false, state)
rewind_or_reinitialize_needed_and_possible s name (some leader) state =
    let checked = needed (check_timeline_and_lsn s leader.primary state) in
    if not leader.has_conn_url
    then some (false, state)
    else if not (text_eq leader.name name) && is_check state
    then checked
    else some (is_need state, state)

-- what the objects answer while a rewind is executed
pub record Attempt : Type 0 where
  pub stopped : Bool  -- PostgreSQL does not run or has been stopped
  pub checkpoint_after_promote : Option Bool
  pub leader_checkpoint : Bool  -- whether one has run on a leader that does not tell
  pub not_in_recovery : Bool
  pub rewound : Bool
  pub primary_reached : Bool  -- whether the leader answers as a primary after a failure
  pub can_rewind : Bool
  pub remove_on_failure : Bool
  pub remove_on_diverged : Bool

leader_is_ready : Attempt → Option Bool → Bool
leader_is_ready a none = a.leader_checkpoint
leader_is_ready a (some after_promote) = after_promote && a.not_in_recovery

-- `failed`
unfoldable pub has_failed : RewindStatus → Bool
has_failed failed = true
has_failed _ = false

after_failure : Attempt → RewindStatus → RewindStatus × Bool
after_failure a state =
    if has_failed state && (a.remove_on_failure || a.remove_on_diverged)
    then (initial, true)
    else (state, false)

-- the next state, and whether the data directory was removed
unfoldable pub execute : Attempt → RewindStatus → RewindStatus × Bool
unfolding leader_is_ready after_failure
execute a state =
    if not a.stopped || not (leader_is_ready a a.checkpoint_after_promote)
    then (state, false)
    else if a.rewound
    then (success, false)
    else after_failure a (if a.primary_reached || not a.can_rewind then failed else state)

-- `is_needed` and `executed`
unfoldable pub is_needed : RewindStatus → Bool
is_needed state = is_check state || is_need state

unfoldable pub executed : RewindStatus → Bool
executed success = true
executed failed = true
executed _ = false
