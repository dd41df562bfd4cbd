-- ===== src/Ha/Election.antt =====
-- `manual_failover_process_no_leader` and `is_healthiest_node` of ha.py: whether this node may
-- take the leader key of a cluster that has no leader.
pub mod Safety
use otus_hightload.Prelude.{
  ◌+◌, Bool, true, false, not, ◌&&◌, ◌||◌, ltb, Option, none, some, List, [], ◌∷◌, ◌++◌, is_some,
  if◌then◌else◌, select,
}
use otus_hightload.Prelude.Int.{pos, ltb_ℤ}
use otus_hightload.Tags.{nofailover}
use otus_hightload.Prelude.Text.{Text, codes, text_eq}
use otus_hightload.Py.{Fields, end, field, has}
use otus_hightload.Dcs.SyncState.{is_set, or_empty, matches}
use otus_hightload.Dcs.Cluster.{Member, Failover, get_member, timeline}
use otus_hightload.GlobalConfig.{check_mode, is_paused, is_synchronous_mode}
use otus_hightload.Ha.Node.{Node, names, sync_mode_is_active, failover_request}
use otus_hightload.Ha.Status.{failover_limitation, fetch_node_status}
use otus_hightload.Ha.Race.{is_healthiest_among, is_failover_possible}

-- The answer, and whether the `/failover` key was cleared on the way. `none` is `None`.
pub record Verdict : Type 0 where
  pub answer : Option Bool
  pub clears_failover : Bool

abbrev pub verdict : Bool → Verdict
verdict b = record { answer = some b; clears_failover = false }

-- The candidate is known and nothing limits it.
candidate_is_healthy : Node → Option Member → Bool
candidate_is_healthy n none = false
candidate_is_healthy n (some m) = not (is_some (failover_limitation (fetch_node_status n m)))

-- the part that picks among the other members
pick_other : Node → Failover → Verdict
pick_other n f =
    if is_set f.leader && names f.leader n.name
    then verdict (not (is_failover_possible n (pos 0) (is_set f.candidate)))
    else verdict
        (is_healthiest_among n (select (λ m. not (names f.leader m.name)) n.cluster.members) false)

unfoldable pub manual_failover_process_no_leader : Node → Failover → Verdict
unfolding candidate_is_healthy pick_other
manual_failover_process_no_leader n f =
    if is_set f.candidate
    then (if names f.candidate n.name
        then verdict true
        else if is_paused n.config
        then (if not (is_some (get_member n.cluster (or_empty f.candidate))) && n.is_primary
            then record { answer = none; clears_failover = true }
            else verdict false)
        else if is_synchronous_mode n.config && not (matches n.cluster.sync n.name true)
        then verdict false
        else if candidate_is_healthy n (get_member n.cluster (or_empty f.candidate))
        then verdict false
        else pick_other n f)
    else if is_paused n.config
    then verdict false
    else pick_other n f

-- What one call decides, and what it leaves in `old_cluster.members`.
pub record Race : Type 0 where
  pub wins : Bool
  pub clears_failover : Bool
  pub old_members : List Member

-- `RemoteMember(name, {'api_url': url})` for each entry
remote_members : Fields → List Member
remote_members end = []
remote_members (field name url rest) =
    record { name = name; fields = field (codes "api_url") url end } ∷ remote_members rest

known_failsafe : Option Fields → List Member
known_failsafe none = []
known_failsafe (some f) = remote_members f

-- the /failsafe key disqualifies a node that it does not list
is_missing : Text → Option Fields → Bool
is_missing name none = false
is_missing name (some end) = false
is_missing name (some f) = not (has name f)

-- `all_known_members` is `old_cluster.members` itself: both `+=` extend that list, and where the
-- old cluster is the current one the second appends the list to itself.
unfoldable pub all_known_members : Node → List Member
unfolding known_failsafe remote_members
all_known_members n =
    let known =
      n.old_members
      ++ (if check_mode n.config (codes "failsafe_mode") then known_failsafe n.failsafe else []) in
    known ++ (if n.old_is_current then known else n.cluster.members)

-- `d[m.name] = m`
put_member : Member → List Member → List Member
put_member m [] = m ∷ []
put_member m (x ∷ rest) =
    let rest' = put_member m rest in if text_eq x.name m.name then m ∷ rest else x ∷ rest'

by_name : List Member → List Member → List Member
by_name acc [] = acc
by_name acc (m ∷ rest) = by_name (put_member m acc) rest

-- `{m.name: m for m in members}`, in the order of first insertion
unfoldable pub distinct_members : List Member → List Member
unfolding by_name put_member
distinct_members members = by_name [] members

-- the race of an ordinary failover, without a `/failover` key
unfoldable pub automatic_race : Node → Race
unfolding is_missing
automatic_race n =
    let lost : Race = record {
      wins = false;
      clears_failover = false;
      old_members = n.old_members;
    } in
    if not n.watchdog_is_healthy
    then lost
    else if check_mode n.config (codes "failsafe_mode") && is_missing n.name n.failsafe
    then lost
    else let known = all_known_members n in
      record {
        wins =
            if sync_mode_is_active n
            then (if matches n.cluster.sync n.name true
                then is_healthiest_among n
                    (distinct_members (select (λ m. matches n.cluster.sync m.name true) known)) true
                else false)
            else is_healthiest_among n (distinct_members known) true;
        clears_failover = false;
        old_members = known;
      }

or_false : Option Bool → Bool
or_false none = false
or_false (some b) = b

-- the race once it is known that the node may take part
replica_race : Node → Option Failover → Race
replica_race n (some f) =
    let v = manual_failover_process_no_leader n f in
    if is_set f.leader && sync_mode_is_active n && not (matches n.cluster.sync n.name true)
    then record { wins = false; clears_failover = false; old_members = n.old_members }
    else record {
      wins = or_false v.answer;
      clears_failover = v.clears_failover;
      old_members = n.old_members;
    }
replica_race n none = automatic_race n

-- `not initialize or sysid == initialize`
owns_cluster : Node → Bool
owns_cluster n = not (is_set n.cluster.initialize) || names n.cluster.initialize n.sysid

-- from `if self.state_handler.is_primary()` on
role_race : Node → Race
role_race n =
    let decided = λ (b : Bool).
      let r : Race = record { wins = b; clears_failover = false; old_members = n.old_members } in
      r in
    if n.is_primary
    then (if is_paused n.config
        then decided (owns_cluster n)
        else decided (not (ltb_ℤ n.primary_timeline (timeline n.cluster))))
    else if is_paused n.config
    then decided false
    else if nofailover n.tags
    then decided false
    else replica_race n (failover_request n)

-- In a pause a manual failover is answered first; `None` goes on.
paused_race : Node → Option Failover → Race
paused_race n none = role_race n
paused_race n (some f) =
    let v = manual_failover_process_no_leader n f in
    if is_paused n.config && not (nofailover n.tags) && not (is_some f.scheduled_at)
    then elim v.answer [
      | none ↦ record (role_race n) { clears_failover = v.clears_failover }
      | some b ↦ record {
        wins = b;
        clears_failover = v.clears_failover;
        old_members = n.old_members;
      }
    ]
    else role_race n

unfoldable pub is_healthiest_node : Node → Race
unfolding paused_race role_race replica_race owns_cluster or_false
is_healthiest_node n =
    if ltb n.now (n.released_leader_key + n.ttl)
    then record { wins = false; clears_failover = false; old_members = n.old_members }
    else paused_race n (failover_request n)
