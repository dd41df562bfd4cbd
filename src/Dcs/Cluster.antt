-- ===== src/Dcs/Cluster.antt =====
-- `Member`, `Leader`, `Failover`, `Status`, `TimelineHistory` and `Cluster` of
-- .patroni/patroni/dcs/__init__.py: the view of the cluster that one read of the DCS gives.
-- A history line is kept by its timeline, `none` where that is no number.
use otus_hightload.Prelude.{
  ℕ, Bool, not, ◌||◌, Option, none, some, List, [], ◌∷◌, if◌then◌else◌, any,
}
use otus_hightload.Prelude.Int.{ℤ, pos, ◌+ℤ◌}
use otus_hightload.Prelude.Text.{Text, codes, text_eq, non_empty}
use otus_hightload.Py.{Value, Fields, str, get, or_null}
use otus_hightload.Tags.{as_dict}
use otus_hightload.Dcs.SyncState.{SyncState, is_set}

pub record Member : Type 0 where
  pub name : Text
  pub fields : Fields

unfoldable pub member_tags : Member → Fields
member_tags m = as_dict (or_null (get (codes "tags") m.fields))

unfoldable pub api_url : Member → Value
api_url m = or_null (get (codes "api_url") m.fields)

text_of : Value → Text
text_of (str s) = s
text_of _ = codes "unknown"

-- the state, `unknown` where there is none
unfoldable pub member_state : Member → Text
unfolding text_of
member_state m = text_of (or_null (get (codes "state") m.fields))

unfoldable pub is_running : Member → Bool
is_running m = text_eq (member_state m) (codes "running")

pub record Leader : Type 0 where
  pub version : Option ℕ
  pub member : Member

pub record Failover : Type 0 where
  pub version : Option ℕ
  pub leader : Option Text
  pub candidate : Option Text
  pub scheduled_at : Option ℤ  -- seconds

pub record Status : Type 0 where
  pub last_lsn : ℤ
  pub slots : Option Fields

pub record TimelineHistory : Type 0 where
  pub version : Option ℕ
  pub is_empty_list : Bool  -- `value == '[]'`
  pub lines : List (Option ℤ)

pub record Cluster : Type 0 where
  pub initialize : Option Text
  pub leader : Option Leader
  pub status : Status
  pub members : List Member
  pub failover : Option Failover
  pub sync : SyncState
  pub history : Option TimelineHistory
  pub failsafe : Option Fields

-- `len(failover) > 0`, which is what `if cluster.failover` asks
unfoldable pub is_requested : Failover → Bool
is_requested f = is_set f.leader || is_set f.candidate

leader_text : Option Leader → Text
leader_text none = []
leader_text (some l) = l.member.name

-- the name of the leader, empty where there is none
unfoldable pub leader_name : Cluster → Text
unfolding leader_text
leader_name c = leader_text c.leader

unfoldable pub is_unlocked : Cluster → Bool
is_unlocked c = not (non_empty (leader_name c))

unfoldable pub has_member : Cluster → Text → Bool
has_member c name = any (λ m. text_eq m.name name) c.members

-- `get_member(name, fallback_to_leader=False)`
find_member : Text → List Member → Option Member
find_member name [] = none
find_member name (m ∷ rest) =
    let later = find_member name rest in if text_eq m.name name then some m else later

unfoldable pub get_member : Cluster → Text → Option Member
unfolding find_member
get_member c name = find_member name c.members

last_line : Option ℤ → List (Option ℤ) → Option ℤ
last_line line [] = line
last_line _ (line ∷ rest) = last_line line rest

next_timeline : Option ℤ → ℤ
next_timeline none = pos 0
next_timeline (some n) = n +ℤ pos 1

history_timeline : TimelineHistory → List (Option ℤ) → ℤ
history_timeline h [] = if h.is_empty_list then pos 1 else pos 0
history_timeline h (line ∷ rest) = next_timeline (last_line line rest)

timeline_of : Option TimelineHistory → ℤ
timeline_of none = pos 0
timeline_of (some h) = history_timeline h h.lines

unfoldable pub timeline : Cluster → ℤ
unfolding timeline_of history_timeline next_timeline last_line
timeline c = timeline_of c.history
