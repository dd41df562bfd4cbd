-- ===== src/Api/Failover.antt =====
-- `do_POST_failover`, `do_POST_switchover`, `is_failover_possible`, `poll_failover_result` and
-- `do_DELETE_switchover` of .patroni/patroni/api.py. A message is its text before values are
-- formatted into it; a missing name is the empty text.
pub mod Checks
pub mod Answer
use Prim.Native.Nat.{◌*◌}
use otus_hightload.Utils.{repr}
use otus_hightload.Py.{truthy}
use otus_hightload.Prelude.{
  ℕ, zero, suc, Bool, true, false, not, ◌&&◌, ◌||◌, leb, Option, none, some, is_some, List, [], ◌∷◌,
  select, String, if◌then◌else◌,
}
use otus_hightload.Prelude.Int.{ℤ}
use otus_hightload.Prelude.Text.{Text, codes, text_eq, non_empty}
use otus_hightload.Py.{Value, str, Fields, get, truthy}
use otus_hightload.GlobalConfig.{is_paused, is_synchronous_mode}
use otus_hightload.Dcs.SyncState.{matches}
use otus_hightload.Dcs.Cluster.{
  Cluster, Member, Leader, Failover, api_url, is_unlocked, leader_name, is_requested,
}
use otus_hightload.Ha.Node.{Node}
use otus_hightload.Ha.Status.{MemberStatus, fetch_nodes_statuses, failover_limitation}
use otus_hightload.Api.Schedule.{Clock, Schedule, parse_schedule}

pub data Action : Type 0 where
  failover switchover : Action

-- what the handler gets from the other objects
pub record World : Type 0 where
  pub node : Node  -- for the REST API of the members
  pub cluster : Cluster  -- dcs.get_cluster()
  pub config : Fields  -- global_config.from_cluster(cluster)
  pub clock : Clock
  pub written : Bool  -- the answer of manual_failover
  pub loop_wait : ℕ
  pub polled : ℕ → Option Cluster  -- get_cluster, by the rounds that are left; none: an exception

-- A value that is no text, and not false, is kept as a text that no name is: it begins with a code beyond
-- those of Unicode, before its printed form.
text_of : Option Value → Text
text_of none = []
text_of (some (str s)) = s
text_of (some v) = if truthy v then 1114112 ∷ repr v else []

or_text : Text → Text → Text
or_text a b = if non_empty a then a else b

-- `request.get(key)`
unfoldable pub name_in : Fields → Text → Text
unfolding text_of
name_in request key = text_of (get key request)

unfoldable pub is_leader_name : Option Leader → Text → Bool
is_leader_name none name = false
is_leader_name (some l) name = text_eq l.member.name name

-- the nodes that come into question, or why there are none
unfoldable pub candidates : Cluster → Fields → Text → Action → Option String × List Member
unfolding is_leader_name
candidates c config candidate action =
    let sync = is_synchronous_mode config in
    if non_empty candidate
    then (let named = select (λ m. text_eq m.name candidate) c.members in
        elim action [
          | switchover ↦
              if sync && not (matches c.sync candidate false)
              then (some "candidate name does not match with sync_standby", [])
              else (some "candidate does not exists", named)
          | failover ↦ (some "candidate does not exists", named)
        ])
    else if sync
    then (
      some "{0} is not possible: can not find sync_standby",
      select (λ m. matches c.sync m.name false) c.members,
    )
    else (
      some "{0} is not possible: cluster does not have members except leader",
      select
          (λ m.
            not (is_some c.leader) || not (is_leader_name c.leader m.name) && truthy (api_url m))
          c.members,
    )

unfoldable pub is_good : MemberStatus → Bool
is_good st = not (is_some (failover_limitation st))

unfoldable pub any_good : List MemberStatus → Option String
any_good [] = some "{0} is not possible: no good candidates have been found"
any_good (st ∷ rest) = let later = any_good rest in if is_good st then none else later

unfoldable pub of_candidates : Node → Option String × List Member → Option String
of_candidates n (reason, []) = reason
of_candidates n (reason, m ∷ rest) = any_good (fetch_nodes_statuses n (m ∷ rest))

-- why the action is not possible
unfoldable pub is_failover_possible : World → Text → Text → Action → Option String
unfolding of_candidates any_good is_good is_leader_name
is_failover_possible w leader candidate action =
    if non_empty leader && not (is_leader_name w.cluster.leader leader)
    then some "leader name does not match"
    else of_candidates w.node (candidates w.cluster w.config candidate action)

-- `cluster.leader.name != leader`, where there may have been no leader
same_leader : Option Text → Text → Bool
same_leader none name = false
same_leader (some l) name = text_eq name l

-- `bool(cluster.failover)`
requests : Option Failover → Bool
requests none = false
requests (some f) = is_requested f

-- one round of the polling; none: go on
poll_round : Option Text → Text → Option Cluster → Option (ℕ × String)
poll_round leader candidate none = none
poll_round leader candidate (some c) =
    if not (is_unlocked c) && not (same_leader leader (leader_name c))
    then (if not (non_empty candidate) || text_eq candidate (leader_name c)
        then some (200, "Successfully {0}ed over to {1}")
        else some (200, "{0}ed over to {1} instead of {2}"))
    else if not (requests c.failover)
    then some (503, "{0} failed")
    else none

poll_rounds : ℕ → (ℕ → Option Cluster) → Option Text → Text → ℕ × String
poll_rounds zero polled leader candidate = (503, "{0} status unknown")
poll_rounds (suc n) polled leader candidate = elim (poll_round leader candidate (polled n)) [
  | some r ↦ r
  | none ↦ poll_rounds n polled leader candidate
]

-- `max(10, loop_wait) * 2` rounds
unfoldable pub poll_failover_result : World → Option Text → Text → ℕ × String
unfolding poll_rounds poll_round same_leader requests
poll_failover_result w leader candidate =
    poll_rounds ((if leb 10 w.loop_wait then w.loop_wait else 10) * 2) w.polled leader candidate

-- what is known of the answer while the request is checked; no error goes on
pub record Progress : Type 0 where
  pub status : Option ℕ
  pub error : Option String
  pub scheduled_at : Option ℤ

-- the checks of the names that are missing
unfoldable pub missing_name : Action → Text → Text → Option String
missing_name failover leader candidate =
    if non_empty candidate
    then none
    else some "Failover could be performed only to a specific candidate"
missing_name switchover leader candidate =
    if non_empty leader
    then none
    else some "Switchover could be performed only from a specific leader"

unfoldable pub refuse : Progress → String → Progress
refuse p why = record p { error = some why }

unfoldable pub of_schedule : Schedule → Progress
of_schedule s = record { status = s.status; error = s.error; scheduled_at = s.scheduled_at }

-- a text for the time of a failover, or in a pause, is an error
unfoldable pub with_schedule : World → Action → Text → Progress → Progress
unfolding refuse of_schedule
with_schedule w action schedule p =
    if is_some p.error || not (non_empty schedule) then p else elim action [
      | failover ↦ refuse p "Failover can't be scheduled"
      | switchover ↦
          if is_paused w.config
          then refuse p "Can't schedule switchover in the paused state"
          else of_schedule (parse_schedule w.clock schedule)
    ]

unfoldable pub with_names : World → Text → Text → Progress → Progress
unfolding refuse
with_names w leader candidate p =
    if is_some p.error
    then p
    else if is_paused w.config && not (non_empty candidate)
    then refuse p "Switchover is possible only to a specific candidate in a paused state"
    else if text_eq leader candidate
    then refuse p "Switchover target and source are the same"
    else p

unfoldable pub impossible : Progress → Option String → Progress
impossible p none = p
impossible p (some why) = record p { status = some 412; error = some why }

-- The nodes are checked where the action is to be done at once.
unfoldable pub with_nodes : World → Text → Text → Action → Progress → Progress
unfolding impossible
with_nodes w leader candidate action p =
    if is_some p.error || is_some p.scheduled_at
    then p
    else impossible p (is_failover_possible w leader candidate action)

-- a failover that names a leader is a switchover
unfoldable pub effective_action : Action → Text → Action
effective_action action leader = if non_empty leader then switchover else action

-- the checks of a request, up to the writing of the key
unfoldable pub check_request : World → Action → Text → Text → Text → Progress
check_request w action leader candidate schedule =
    with_nodes w leader candidate (effective_action action leader) (
      with_names w leader candidate (
        with_schedule w action schedule (record {
          status = some 400;
          error = missing_name action leader candidate;
          scheduled_at = none;
        })))

-- The status code, `None` where none was set, the text, and whether the key was asked to be written.
pub record Reply : Type 0 where
  pub status : Option ℕ
  pub text : String
  pub writes : Bool

unfoldable pub current_leader : Option Leader → Option Text
current_leader none = none
current_leader (some l) = some l.member.name

unfoldable pub after_write : World → Text → Option ℤ → Bool → Reply
after_write w candidate at false = record {
  status = some 503;
  text = "failed to write failover key into DCS";
  writes = true;
}
after_write w candidate (some at) true = record {
  status = some 202;
  text = "{0} scheduled";
  writes = true;
}
after_write w candidate none true =
    let (status, text) = poll_failover_result w (current_leader w.cluster.leader) candidate in
    record { status = some status; text = text; writes = true }

unfoldable pub finish : World → Text → Progress → Option String → Reply
finish w candidate p (some why) = record { status = p.status; text = why; writes = false }
finish w candidate p none = after_write w candidate p.scheduled_at w.written

-- `request.get('candidate') or request.get('member')`
unfoldable pub candidate_in : Fields → Text
unfolding or_text
candidate_in request =
    or_text (name_in request (codes "candidate")) (name_in request (codes "member"))

unfoldable pub do_post_failover : World → Action → Fields → Reply
unfolding finish after_write current_leader
do_post_failover w action request =
    let candidate = candidate_in request in
    let p =
      check_request w action (name_in request (codes "leader")) candidate
        (name_in request (codes "scheduled_at")) in
    finish w candidate p p.error

is_scheduled : Option Failover → Bool
is_scheduled none = false
is_scheduled (some f) = is_requested f && is_some f.scheduled_at

-- `do_DELETE_switchover`, with the answer of `manual_failover`
unfoldable pub do_delete_switchover : Option Failover → Bool → ℕ
unfolding is_scheduled
do_delete_switchover asked written =
    if is_scheduled asked then (if written then 200 else 409) else 404
