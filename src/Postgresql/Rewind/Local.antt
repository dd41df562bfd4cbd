-- ===== src/Postgresql/Rewind/Local.antt =====
-- Where the WAL of a node ends, of .patroni/patroni/postgresql/rewind.py: `_get_checkpoint_end` and
-- `_get_local_timeline_lsn`. What PostgreSQL and its programs answer is input.
use otus_hightload.Prelude.{
  Bool, true, false, ◌||◌, Option, none, some, List, [], ◌∷◌, ◌++◌, if◌then◌else◌,
}
use otus_hightload.Prelude.Int.{ℤ, pos, eq_ℤ}
use otus_hightload.Prelude.Text.{
  Text, codes, text_eq, mem_text, rstrip, split, has_prefix, contains_text,
}
use otus_hightload.Postgresql.Misc.{int_of, parse_lsn}
use otus_hightload.Postgresql.History.{format_lsn}

pub record Server : Type 0 where
  pub is_running : Bool
  pub replica_timeline : Option ℤ
  pub replayed_location : Option ℤ
  pub controldata : Text → Option Text
  pub waldump : ℤ → Text → Option Text × Option Text  -- its two outputs, decoded
  pub use_pg_rewind : Bool
  pub has_pg_rewind : Bool  -- `pg_rewind --help` succeeds
  pub remove_on_diverged : Bool

unfoldable pub or_text : Text → Option Text → Text
or_text default none = default
or_text default (some t) = t

-- what follows the first `part` of a text
after : Text → Text → Option Text
after [] s = some s
after part [] = none
after part (c ∷ s) =
    let rest = after part s in if has_prefix part (c ∷ s) then some (skip part (c ∷ s)) else rest
  where
    skip : Text → Text → Text
    skip [] t = t
    skip (d ∷ p) [] = []
    skip (d ∷ p) (x ∷ t) = skip p t

-- what stands before the first `part` of a text
before : Text → Text → Option Text
before part [] = if has_prefix part [] then some [] else none
before part (c ∷ s) =
    let rest = before part s in
    if has_prefix part (c ∷ s) then some [] else elim rest [ none ↦ none | some t ↦ some (c ∷ t) ]

-- the position before one of the two forms of the message
position_before : Text → Text → Option ℤ
position_before message part = elim (before part message) [ none ↦ none | some t ↦ parse_lsn t ]

first_position : Option ℤ → Option ℤ → ℤ
first_position (some n) other = n
first_position none (some n) = n
first_position none none = pos 0

position_of : Option Text → ℤ
position_of none = pos 0
position_of (some message) =
    first_position (position_before message (codes ": expected at least "))
      (position_before message (codes ": wanted "))

record_end : ℤ → List Text → List Text → ℤ
record_end lsn (out ∷ []) (err ∷ []) =
    if contains_text (codes ", lsn: " ++ format_lsn lsn true ++ codes ", prev ") out
    then position_of (
        after
          (codes "error in WAL record at "
            ++ format_lsn lsn false
            ++ codes ": invalid record length at ")
          err)
    else pos 0
record_end lsn out err = pos 0

end_of : ℤ → Option Text × Option Text → ℤ
end_of lsn (some out, some err) =
    record_end lsn (split b'\n' (rstrip out)) (split b'\n' (rstrip err))
end_of lsn _ = pos 0

unfoldable pub get_checkpoint_end : Server → ℤ → ℤ → ℤ
unfolding end_of record_end position_of first_position position_before before after
get_checkpoint_end s timeline lsn = end_of lsn (s.waldump timeline (format_lsn lsn false))

-- where the WAL of this node ends, as far as it is known, and whether it was a replica
pub record Position : Type 0 where
  pub in_recovery : Option Bool
  pub timeline : Option ℤ
  pub lsn : Option ℤ

-- the same while the position is a text
record Control : Type 0 where
  in_recovery : Option Bool
  timeline : Option ℤ
  lsn : Option Text
  state : Text

number : (Text → Option Text) → Text → Option ℤ
number control key = int_of 10 (or_text [] (control key))

is_text : Text → Option Text → Bool
is_text s none = false
is_text s (some t) = text_eq s t

-- A timeline that is no number ends the block.
was_replica : Text → Option Text → Option ℤ → Control
was_replica state lsn none = record {
  in_recovery = some true;
  timeline = none;
  lsn = lsn;
  state = [];
}
was_replica state lsn (some timeline) = record {
  in_recovery = some true;
  timeline = some timeline;
  lsn = lsn;
  state = if is_text (codes "0/0") lsn || eq_ℤ timeline (pos 0) then codes "shut down" else state;
}

keeping : Option ℤ → Option ℤ → Option ℤ
keeping previous none = previous
keeping previous (some n) = some n

was_primary : Option ℤ → Option Text → Option ℤ → Control
was_primary previous lsn timeline = record {
  in_recovery = some false;
  timeline = keeping previous timeline;
  lsn = lsn;
  state = [];
}

control_of : (Text → Option Text) → Control
control_of control =
    let state = or_text [] (control (codes "Database cluster state")) in
    let c =
      if mem_text state (codes "shut down in recovery" ∷ codes "in archive recovery" ∷ [])
      then was_replica state (control (codes "Minimum recovery ending location"))
          (number control (codes "Min recovery ending loc's timeline"))
      else record { in_recovery = none; timeline = none; lsn = none; state = state } in
    if text_eq c.state (codes "shut down")
    then was_primary c.timeline (control (codes "Latest checkpoint location"))
        (number control (codes "Latest checkpoint's TimeLineID"))
    else c

read_lsn : Option Text → Option ℤ
read_lsn none = none
read_lsn (some t) = parse_lsn t

-- `_get_local_timeline_lsn_from_controldata`
unfoldable pub local_from_controldata : (Text → Option Text) → Position
unfolding control_of was_primary keeping was_replica is_text number or_text read_lsn
local_from_controldata control =
    let c = control_of control in
    record { in_recovery = c.in_recovery; timeline = c.timeline; lsn = read_lsn c.lsn }

-- `_get_local_timeline_lsn`
unfoldable pub local_timeline_lsn : Server → Position
local_timeline_lsn s =
    if s.is_running
    then record {
      in_recovery = some true;
      timeline = s.replica_timeline;
      lsn = s.replayed_location;
    }
    else local_from_controldata s.controldata
