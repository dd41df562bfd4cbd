-- ===== src/Api/Schedule.antt =====
-- `parse_schedule` of .patroni/patroni/api.py. The reading of a timestamp is that of dateutil, a
-- function; times are seconds.
use otus_hightload.Prelude.{ℕ, Bool, not, Option, none, some, String, if◌then◌else◌}
use otus_hightload.Prelude.Int.{ℤ, ltb_ℤ}
use otus_hightload.Prelude.Text.{Text}

pub record Moment : Type 0 where
  pub has_timezone : Bool
  pub seconds : ℤ

pub record Clock : Type 0 where
  pub parse : Text → Option Moment  -- `dateutil.parser.parse`; none: it raises
  pub now : ℤ

-- the status code, the error and the time, each of which may be `None`
pub record Schedule : Type 0 where
  pub status : Option ℕ
  pub error : Option String
  pub scheduled_at : Option ℤ

unfoldable pub of_moment : Clock → Option Moment → Schedule
of_moment c none = record {
  status = some 422;
  error =
      some
        "Unable to parse scheduled timestamp. It should be in an unambiguous format, e.g. ISO 8601";
  scheduled_at = none;
}
of_moment c (some m) =
    if not m.has_timezone
    then record {
      status = some 400;
      error = some "Timezone information is mandatory for the scheduled {0}";
      scheduled_at = some m.seconds;
    }
    else if ltb_ℤ m.seconds c.now
    then record {
      status = some 422;
      error = some "Cannot schedule {0} in the past";
      scheduled_at = some m.seconds;
    }
    else record { status = none; error = none; scheduled_at = some m.seconds }

unfoldable pub parse_schedule : Clock → Text → Schedule
unfolding of_moment
parse_schedule c schedule = of_moment c (c.parse schedule)
