-- ===== src/Scenarios/Rewind.antt =====
-- A replica and a former primary against the history of a concrete primary.
use otus_hightload.Utils.{read_sign, digit, signed}
use otus_hightload.Postgresql.Misc.{int_of, parse_lsn}
use otus_hightload.Prelude.{
  all, if◌then◌else◌, true, false, not, Option, none, some, [], ◌∷◌, ◌++◌, ◌≡◌, refl,
}
use otus_hightload.Prelude.Int.{◌+ℤ◌, eq_ℤ, ◌*ℤ◌, pos}
use otus_hightload.Prelude.Text.{
  mem_text, rstrip, split, contains_text, strip, Text, codes, text_eq,
}
use otus_hightload.Postgresql.History.{parse_lines, hex, with_line, Line, parse_history, format_lsn}
use otus_hightload.Postgresql.Rewind.Local.{
  Server, get_checkpoint_end, local_timeline_lsn, local_from_controldata,
}
use otus_hightload.Postgresql.Rewind.Check.{
  history_answer, by_history, asked, compared, by_answer, Primary, RewindStatus, need, check,
  need_or_not, is_primary_role, check_timeline_and_lsn,
}
use otus_hightload.Postgresql.Rewind.Check.{diverged, switched}
use otus_hightload.Postgresql.Rewind.Branch.{ascending, below}
use otus_hightload.Postgresql.Rewind.Owner.{timeline_at, beyond, check-timeline_at}

abbrev lsn_text : Text
lsn_text = codes "0/4000028"

-- the timeline of the primary began at 0/4000028
abbrev history_text : Text
history_text = codes "1" ++ (b'\t' ∷ lsn_text) ++ (b'\t' ∷ codes "no recovery target specified")

abbrev switch : Line
switch = record {
  timeline = pos 1;
  switchpoint = pos 67108904;
  reason = codes "no recovery target specified";
}

-- a replica that has replayed more of its timeline
abbrev replica : Server
replica = record {
  is_running = true;
  replica_timeline = some (pos 1);
  replayed_location = some (pos 67108905);
  controldata = λ key. none;
  waldump = λ timeline lsn. (none, none);
  use_pg_rewind = true;
  has_pg_rewind = true;
  remove_on_diverged = false;
}

abbrev primary : Primary
primary = record {
  role = some (codes "master");
  not_in_recovery = true;
  identify = some (some (pos 2));
  history = some (some history_text);
}

lsn_printed : format_lsn (pos 67108904) false ≡ lsn_text
unfolding format_lsn hex
lsn_printed = refl

parsed : parse_history history_text ≡ switch ∷ []
unfolding parse_history parse_lines split with_line strip int_of read_sign digit parse_lsn signed
    ◌+ℤ◌ ◌*ℤ◌
parsed = refl

check-timeline_at_example :
    check_timeline_and_lsn replica primary check
    ≡ some (need_or_not (not (eq_ℤ (timeline_at (pos 2) (switch ∷ []) (pos 67108905)) (pos 1))))
unfolding local_timeline_lsn is_primary_role ascending below beyond mem_text text_eq all
check-timeline_at_example =
    check-timeline_at replica primary check (pos 1) (pos 67108905) (pos 2) history_text switch []
      refl refl refl refl refl parsed refl refl refl refl

rewinds : check_timeline_and_lsn replica primary check ≡ some need
unfolding check_timeline_and_lsn compared local_timeline_lsn is_primary_role mem_text text_eq
    by_answer asked eq_ℤ history_answer by_history parse_history parse_lines split with_line strip
    int_of read_sign digit parse_lsn need_or_not diverged signed switched ◌+ℤ◌ ◌*ℤ◌
rewinds = refl

-- the former primary, whose checkpoint ends at the switchpoint
abbrev key_state : Text → Option Text
key_state key =
    if text_eq key (codes "Database cluster state")
    then some (codes "shut down")
    else if text_eq key (codes "Latest checkpoint location")
    then some (codes "0/3FFFFB0")
    else if text_eq key (codes "Latest checkpoint's TimeLineID")
    then some (codes "1")
    else none

abbrev former : Server
former = record replica {
  is_running = false;
  controldata = key_state;
  waldump = λ timeline lsn. (
    some (codes "rmgr: XLOG, lsn: 0/03FFFFB0, prev 0/03FFFF78, desc: CHECKPOINT_SHUTDOWN"),
    some (
        codes
          "pg_waldump: error: error in WAL record at 0/3FFFFB0: invalid record length at 0/4000028: wanted 24, got 0"),
  );
}

checkpoint_end : get_checkpoint_end former (pos 1) (pos 67108784) ≡ pos 67108904
unfolding get_checkpoint_end split rstrip contains_text format_lsn hex parse_lsn int_of read_sign
    strip digit ◌+ℤ◌ ◌*ℤ◌ signed
checkpoint_end = refl

follows : check_timeline_and_lsn former primary check ≡ some RewindStatus.not_need
unfolding check_timeline_and_lsn compared local_timeline_lsn local_from_controldata text_eq mem_text
    int_of read_sign strip digit parse_lsn split is_primary_role by_answer asked signed eq_ℤ
    history_answer by_history parse_history parse_lines with_line need_or_not diverged switched ◌+ℤ◌
    ◌*ℤ◌ get_checkpoint_end rstrip contains_text format_lsn hex
follows = refl
