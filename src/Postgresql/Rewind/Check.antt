-- ===== src/Postgresql/Rewind/Check.antt =====
-- `_check_timeline_and_lsn` of .patroni/patroni/postgresql/rewind.py: whether a rewind is needed. What
-- the primary answers is input.
use otus_hightload.Prelude.{
  Bool, true, false, not, ◌&&◌, ◌||◌, Option, none, some, List, [], ◌∷◌, if◌then◌else◌,
}
use otus_hightload.Prelude.Int.{ℤ, pos, ltb_ℤ, eq_ℤ}
use otus_hightload.Prelude.Text.{Text, codes, mem_text}
use otus_hightload.Postgresql.History.{Line, parse_history}
use otus_hightload.Postgresql.Rewind.Local.{Server, get_checkpoint_end, local_timeline_lsn}

-- `REWIND_STATUS`
pub data RewindStatus : Type 0 where
  initial checkpoint check need not_need success failed : RewindStatus

-- The loop over the history: the switchpoint of the timeline of this node decides.
unfoldable pub switched : Bool → ℤ → ℤ → ℤ → Bool
switched in_recovery lsn checkpoint_end switchpoint =
    if in_recovery
    then ltb_ℤ switchpoint lsn
    else not (ltb_ℤ lsn switchpoint) || not (eq_ℤ switchpoint checkpoint_end)

unfoldable pub diverged : Bool → ℤ → ℤ → ℤ → List Line → Bool
diverged in_recovery timeline lsn checkpoint_end [] = true
diverged in_recovery timeline lsn checkpoint_end (line ∷ rest) =
    let later = diverged in_recovery timeline lsn checkpoint_end rest in
    if eq_ℤ line.timeline timeline
    then switched in_recovery lsn checkpoint_end line.switchpoint
    else if ltb_ℤ timeline line.timeline
    then true
    else later

-- what is known of the primary: the role in its member data where it is a `Leader`; the answers to
-- `IDENTIFY_SYSTEM` and `TIMELINE_HISTORY`, none where there is an exception, none inside for no row
pub record Primary : Type 0 where
  pub role : Option Text  -- `none` where it is a `RemoteMember`
  pub not_in_recovery : Bool
  pub identify : Option (Option ℤ)
  pub history : Option (Option Text)

unfoldable pub is_primary_role : Option Text → Bool
is_primary_role none = true
is_primary_role (some role) = mem_text role (codes "master" ∷ codes "primary" ∷ [])

pub data Asked : Type 0 where
  no_connection : Asked
  decided : Bool → Asked
  history : Text → Asked

unfoldable pub history_answer : Option (Option Text) → Asked
history_answer none = no_connection
history_answer (some none) = decided false
history_answer (some (some text)) = history text

unfoldable pub asked : Primary → ℤ → Asked
asked p timeline = elim p.identify [
  | none ↦ no_connection
  | some none ↦ decided false
  | some (some primary_timeline) ↦
      if ltb_ℤ primary_timeline timeline
      then decided true
      else if eq_ℤ timeline primary_timeline
      then decided false
      else if ltb_ℤ (pos 1) primary_timeline
      then history_answer p.history
      else decided false
]

unfoldable pub need_or_not : Bool → RewindStatus
need_or_not true = need
need_or_not false = not_need

is_true : Option Bool → Bool
is_true none = false
is_true (some b) = b

-- An empty history is an exception where it is logged: `none`.
unfoldable pub by_history : Server → Bool → ℤ → ℤ → List Line → Option RewindStatus
by_history s in_recovery timeline lsn [] = none
by_history s in_recovery timeline lsn (line ∷ rest) = some (
    need_or_not
      (diverged in_recovery timeline lsn (get_checkpoint_end s timeline lsn) (line ∷ rest)))

unfoldable pub by_answer : Server → Bool → ℤ → ℤ → RewindStatus → Asked → Option RewindStatus
by_answer s in_recovery timeline lsn state no_connection = some state
by_answer s in_recovery timeline lsn state (decided need_rewind) = some (need_or_not need_rewind)
by_answer s in_recovery timeline lsn state (history text) =
    by_history s in_recovery timeline lsn (parse_history text)

unfoldable pub compared :
    Server → Primary → RewindStatus → Bool → Option ℤ → Option ℤ → Option RewindStatus
compared s p state in_recovery (some timeline) (some lsn) =
    if is_primary_role p.role && p.not_in_recovery
    then by_answer s in_recovery timeline lsn state (asked p timeline)
    else some state
compared s p state in_recovery _ _ = some state

-- `_check_timeline_and_lsn`, from a state to the next
unfoldable pub check_timeline_and_lsn : Server → Primary → RewindStatus → Option RewindStatus
unfolding is_true
check_timeline_and_lsn s p state =
    let l = local_timeline_lsn s in compared s p state (is_true l.in_recovery) l.timeline l.lsn
