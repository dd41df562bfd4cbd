-- ===== src/Ha/Restart.antt =====
-- `restart_matches`, `restart`, `schedule_future_restart` and `delete_future_restart` of
-- .patroni/patroni/ha.py. The answers of the other objects are input.
pub mod Roles
use otus_hightload.Prelude.{Bool, true, false, not, ◌&&◌, Option, none, some, String, if◌then◌else◌}
use otus_hightload.Prelude.Int.{ℤ, ltb_ℤ}
use otus_hightload.Prelude.Text.{Text, codes, text_eq, non_empty}
use otus_hightload.Py.{Fields}
use otus_hightload.GlobalConfig.{primary_start_timeout, is_synchronous_mode}
use otus_hightload.Postgresql.Misc.{Version, version, postgres_version_to_int}

-- the roles that `set_role` is called with
pub data PgRole : Type 0 where
  master replica standby_leader demoted uninitialized promoted : PgRole

unfoldable pub role_text : PgRole → Text
role_text master = codes "master"
role_text replica = codes "replica"
role_text standby_leader = codes "standby_leader"
role_text demoted = codes "demoted"
role_text uninitialized = codes "uninitialized"
role_text promoted = codes "promoted"

-- the filters of a request for a restart
pub record Filters : Type 0 where
  pub scheduled : Bool  -- 'schedule' in request
  pub schedule : Option ℤ
  pub role : Text  -- empty where there is none
  pub postgres_version : Text
  pub timeout : Option ℤ
  pub restart_pending : Bool

pub record Instance : Type 0 where
  pub role : PgRole
  pub server_version : ℤ
  pub pending_restart_reason : Bool
  pub config : Fields
  pub has_lock : Bool
  pub busy : Bool  -- whether `schedule` answers with another action
  pub outcome : Option Bool  -- of the restart
  pub scheduled_restart : Bool  -- whether one is scheduled

-- whether the server is too new for the filter; none is an exception
abbrev pub too_new : ℤ → Version → Option Bool
too_new server (version n) = some (not (ltb_ℤ server n))
too_new server _ = none

unfoldable pub version_mismatch : Instance → Text → Option Bool
version_mismatch i wanted =
    if non_empty wanted
    then too_new i.server_version (postgres_version_to_int wanted)
    else some false

unfoldable pub matches_of : Instance → Filters → Option Bool → Option Bool
matches_of i f none = none
matches_of i f (some mismatch) = some (
    not (non_empty f.role && not (text_eq f.role (role_text i.role)))
    && not mismatch
    && not (f.restart_pending && not i.pending_restart_reason))

unfoldable pub restart_matches : Instance → Filters → Option Bool
unfolding matches_of version_mismatch
restart_matches i f = matches_of i f (version_mismatch i f.postgres_version)

-- the answer, with what it has set: whether the main loop is to think that PostgreSQL recovers, the
-- start timeout, and whether the restart waits until the node is no synchronous standby
pub record Restarted : Type 0 where
  pub done : Bool
  pub message : String
  pub recovering : Bool
  pub start_timeout : Option ℤ
  pub waits : Bool

unfoldable pub refused : String → Restarted
refused message = record {
  done = false;
  message = message;
  recovering = false;
  start_timeout = none;
  waits = false;
}

or_default : ℤ → Option ℤ → ℤ
or_default default none = default
or_default default (some n) = n

finished : Bool → Option Bool → Bool × String
finished true outcome = (true, "restart initiated")
finished false (some true) = (true, "restarted successfully")
finished false (some false) = (false, "restart failed")
finished false none = (false, "postgres is still starting")

unfoldable pub started : Instance → Filters → Bool → Restarted
unfolding finished or_default
started i f run_async =
    let (done, message) = finished run_async i.outcome in
    if i.busy then refused "{0} already in progress" else record {
      done = done;
      message = message;
      recovering = true;
      start_timeout = some (or_default (primary_start_timeout i.config) f.timeout);
      waits = is_synchronous_mode i.config && not i.has_lock;
    }

unfoldable pub matched : Instance → Filters → Bool → Option Bool → Option Restarted
matched i f run_async none = none
matched i f run_async (some false) = some (refused "restart conditions are not satisfied")
matched i f run_async (some true) = some (started i f run_async)

unfoldable pub restart : Instance → Filters → Bool → Option Restarted
restart i f run_async = matched i f run_async (restart_matches i f)

-- whether it was scheduled, and whether one is scheduled now; the member key, which is written then,
-- is left out
unfoldable pub schedule_future_restart : Instance → Bool × Bool
schedule_future_restart i = (not i.scheduled_restart, true)

unfoldable pub delete_future_restart : Instance → Bool × Bool
delete_future_restart i = (i.scheduled_restart, false)
