-- ===== src/Ha/Status.antt =====
-- `_MemberStatus` of ha.py: what the REST API of a member says about it. A location that is no
-- number makes the answer unusable; the API writes numbers.
use otus_hightload.Prelude.{
  Bool, true, false, not, ◌||◌, Option, none, some, List, if◌then◌else◌, map,
}
use otus_hightload.Prelude.Int.{ℤ, pos, ltb_ℤ}
use otus_hightload.Prelude.Text.{codes, text_eq}
use otus_hightload.Py.{Value, bool, int, str, dict, Fields, end, get, or_null, truthy}
use otus_hightload.Tags.{as_dict, nofailover}
use otus_hightload.Dcs.Cluster.{Member}
use otus_hightload.Ha.Node.{Node}

pub record MemberStatus : Type 0 where
  pub member : Member
  pub reachable : Bool
  pub in_recovery : Option Bool
  pub wal_position : ℤ
  pub fields : Fields

unfoldable pub unknown : Member → MemberStatus
unknown m = record {
  member = m;
  reachable = false;
  in_recovery = none;
  wal_position = pos 0;
  fields = end;
}

-- `wal.get(key, 0)` as a number
location : Option Value → Option ℤ
location none = some (pos 0)
location (some (int n)) = some n
location (some (bool true)) = some (pos 1)
location (some (bool false)) = some (pos 0)
location (some _) = none

max_location : Option ℤ → Option ℤ → Option ℤ
max_location (some a) (some b) = some (if ltb_ℤ a b then b else a)
max_location _ _ = none

is_primary_role : Value → Bool
is_primary_role (str s) = text_eq s (codes "master") || text_eq s (codes "primary")
is_primary_role _ = false

build : Member → Bool → Fields → Option ℤ → Option MemberStatus
build m recovery json none = none
build m recovery json (some lsn) = some (record {
  member = m;
  reachable = true;
  in_recovery = some recovery;
  wal_position = lsn;
  fields = json;
})

-- with the `wal` (or `xlog`) part of the answer
from_wal : Member → Fields → Value → Option MemberStatus
from_wal m json (dict wal) =
    let recovery = not (
      truthy (or_null (get (codes "location") wal))
      || is_primary_role (or_null (get (codes "role") json))) in
    build m recovery json (
      if recovery
      then max_location (location (get (codes "received_location") wal))
          (location (get (codes "replayed_location") wal))
      else some (pos 0))
from_wal m json _ = none

-- `none` is the exception
unfoldable pub from_api_response : Member → Fields → Option MemberStatus
unfolding from_wal build max_location location is_primary_role
from_api_response m json =
    let wal = or_null (get (codes "wal") json) in
    from_wal m json (if truthy wal then wal else or_null (get (codes "xlog") json))

number_or_zero : Value → ℤ
number_or_zero (int n) = n
number_or_zero _ = pos 0

-- `self.data.get('timeline', 0)`
unfoldable pub status_timeline : MemberStatus → ℤ
unfolding number_or_zero
status_timeline st = number_or_zero (or_null (get (codes "timeline") st.fields))

unfoldable pub status_tags : MemberStatus → Fields
status_tags st = as_dict (or_null (get (codes "tags") st.fields))

unfoldable pub watchdog_failed : MemberStatus → Bool
watchdog_failed st = truthy (or_null (get (codes "watchdog_failed") st.fields))

pub data Limitation : Type 0 where
  not_reachable not_allowed_to_promote not_watchdog_capable : Limitation

-- why the node cannot promote
unfoldable pub failover_limitation : MemberStatus → Option Limitation
failover_limitation st =
    if not st.reachable
    then some not_reachable
    else if nofailover (status_tags st)
    then some not_allowed_to_promote
    else if watchdog_failed st
    then some not_watchdog_capable
    else none

or_unknown : Member → Option MemberStatus → MemberStatus
or_unknown m none = unknown m
or_unknown m (some st) = st

parse_answer : Member → Option Fields → MemberStatus
parse_answer m none = unknown m
parse_answer m (some json) = or_unknown m (from_api_response m json)

unfoldable pub fetch_node_status : Node → Member → MemberStatus
unfolding parse_answer or_unknown unknown
fetch_node_status n m = parse_answer m (n.request m)

unfoldable pub fetch_nodes_statuses : Node → List Member → List MemberStatus
fetch_nodes_statuses n members = map (fetch_node_status n) members
