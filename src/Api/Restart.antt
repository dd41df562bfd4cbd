-- ===== src/Api/Restart.antt =====
-- `do_POST_restart`, `do_DELETE_restart` and `do_POST_reinitialize` of .patroni/patroni/api.py. The keys
-- of the request are checked in their order; what they are parsed to replaces their values.
pub mod Roles
use otus_hightload.Prelude.{
  ℕ, Bool, true, false, ◌&&◌, Option, none, some, [], ◌∷◌, String, if◌then◌else◌,
}
use otus_hightload.Prelude.Int.{ℤ, pos, ltb_ℤ}
use otus_hightload.Prelude.Text.{Text, codes, text_eq, mem_text}
use otus_hightload.Py.{Value, str, Fields, end, field, has}
use otus_hightload.Utils.{parse_int_unit, py_str}
use otus_hightload.GlobalConfig.{is_paused}
use otus_hightload.Postgresql.Misc.{
  Version, version, invalid_version, invalid_format, value_error, postgres_version_to_int,
}
use otus_hightload.Ha.Restart.{Filters, Instance, Restarted, restart, schedule_future_restart}
use otus_hightload.Api.Schedule.{Clock, Schedule, parse_schedule}
use otus_hightload.Api.Request.{
  Body, Content, content, length_required, bad_request, read_json_content,
}

-- what the check of a key comes to; an exception ends the request without an answer
pub data Check : Type 0 where
  go_on : Filters → Check
  error : ℕ → String → Check
  exception : Check

of_schedule : Filters → Schedule → Check
of_schedule f s = elim s.status [
  | none ↦ go_on (record f { scheduled = true; schedule = s.scheduled_at })
  | some code ↦ elim s.error [ none ↦ exception | some why ↦ error code why ]
]

check_schedule : Clock → Filters → Value → Check
check_schedule c f (str t) = of_schedule f (parse_schedule c t)
check_schedule c f _ =
    error 422
      "Unable to parse scheduled timestamp. It should be in an unambiguous format, e.g. ISO 8601"

known_role : Text → Bool
known_role t = mem_text t (codes "master" ∷ codes "primary" ∷ codes "replica" ∷ [])

check_role : Filters → Value → Check
check_role f (str t) =
    if known_role t
    then go_on (record f { role = t })
    else error 400 "PostgreSQL role should be either primary or replica"
check_role f _ = error 400 "PostgreSQL role should be either primary or replica"

unfoldable pub of_version : Filters → Text → Version → Check
of_version f t (version n) = go_on (record f { postgres_version = t })
of_version f t invalid_version = error 400 "Invalid PostgreSQL version: {0}"
of_version f t invalid_format =
    error 400 "Invalid PostgreSQL version format: X.Y or X.Y.Z is accepted: {0}"
of_version f t value_error = exception

unfoldable pub check_version : Filters → Value → Check
check_version f (str t) = of_version f t (postgres_version_to_int t)
check_version f _ = exception

unfoldable pub check_timeout : Filters → Option ℤ → Check
check_timeout f none = error 400 "Timeout should be a positive number of seconds"
check_timeout f (some n) =
    if ltb_ℤ (pos 0) n
    then go_on (record f { timeout = some n })
    else error 400 "Timeout should be a positive number of seconds"

unfoldable pub check_key : Clock → Filters → Text → Value → Check
unfolding of_schedule check_schedule known_role check_role of_version check_version check_timeout
check_key c f key v =
    if text_eq key (codes "schedule")
    then check_schedule c f v
    else if text_eq key (codes "role")
    then check_role f v
    else if text_eq key (codes "postgres_version")
    then check_version f v
    else if text_eq key (codes "timeout")
    then check_timeout f (parse_int_unit (py_str v) (codes "s"))
    else if text_eq key (codes "restart_pending")
    then go_on (record f { restart_pending = true })
    else error 400 "Unknown filter for the scheduled restart: {0}"

unfoldable pub and_check : Check → (Filters → Check) → Check
and_check (go_on f) k = k f
and_check (error code why) k = error code why
and_check exception k = exception

unfoldable pub check_keys : Clock → Filters → Fields → Check
check_keys c f end = go_on f
check_keys c f (field key v rest) = and_check (check_key c f key v) (λ g. check_keys c g rest)

abbrev pub no_filters : Filters
no_filters = record {
  scheduled = false;
  schedule = none;
  role = [];
  postgres_version = [];
  timeout = none;
  restart_pending = false;
}

-- the status code and the text; none where the handler ends without an answer
pub record Answer : Type 0 where
  pub status : ℕ
  pub text : String

unfoldable pub of_restart : Option Restarted → Answer
of_restart none = record { status = 400; text = "restart failed" }
of_restart (some r) = record { status = if r.done then 200 else 503; text = r.message }

unfoldable pub of_scheduling : Bool → Answer
of_scheduling true = record { status = 202; text = "Restart scheduled" }
of_scheduling false = record { status = 409; text = "Another restart is already scheduled" }

unfoldable pub of_check : Instance → Check → Option Answer
unfolding of_restart of_scheduling
of_check i exception = none
of_check i (error code why) = some (record { status = code; text = why })
of_check i (go_on f) = some (
    if f.scheduled
    then of_scheduling (schedule_future_restart i).0
    else of_restart (restart i f false))

unfoldable pub of_content : Instance → Clock → Content → Option Answer
of_content i c length_required = some (record { status = 411; text = "" })
of_content i c bad_request = some (record { status = 400; text = "" })
of_content i c (content request) =
    if is_paused i.config && has (codes "schedule") request
    then some (record { status = 500; text = "Can't schedule restart in the paused state" })
    else of_check i (check_keys c no_filters request)

unfoldable pub do_post_restart : Instance → Clock → Body → Option Answer
unfolding of_content
do_post_restart i c b = of_content i c (read_json_content true b)

-- the answer of `delete_future_restart`
unfoldable pub do_delete_restart : Instance → ℕ
do_delete_restart i = if i.scheduled_restart then 200 else 404

-- the answer of `reinitialize`, none where it has begun
unfoldable pub do_post_reinitialize : Option String → Answer
do_post_reinitialize none = record { status = 200; text = "reinitialize started" }
do_post_reinitialize (some why) = record { status = 503; text = why }
