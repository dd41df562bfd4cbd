-- ===== src/Scenarios/Restart.antt =====
-- Requests for a restart of a concrete primary.
use otus_hightload.GlobalConfig.{check_mode, is_paused}
use otus_hightload.Utils.{
  py_str, floats_on, parse_int_unit, round_ratio, round_half, strtol, digit, parse_bool, read_sign,
  signed,
}
use otus_hightload.Prelude.{ltb, true, false, none, some, ◌≡◌, refl}
use otus_hightload.Prelude.Int.{◌+ℤ◌, ◌*ℤ◌, pos}
use otus_hightload.Prelude.Text.{split, strip, text_eq, codes}
use otus_hightload.Py.{Fields, int, get, print_int, has, str, dict, end, field}
use otus_hightload.Postgresql.Misc.{all_ints, int_of, version, postgres_version_to_int, parse_lsn}
use otus_hightload.Ha.Restart.{
  matched, started, restart, refused, restart_matches, role_text, Instance, master,
}
use otus_hightload.Api.Schedule.{Clock}
use otus_hightload.Api.Request.{read_json_content, body}
use otus_hightload.Api.Restart.{of_check, check_keys, check_key, and_check, do_post_restart}
use otus_hightload.Api.Restart.Roles.{is_dict, primary_restart_refused}

abbrev primary : Instance
primary = record {
  role = master;
  server_version = pos 160003;
  pending_restart_reason = true;
  config = end;
  has_lock = true;
  busy = false;
  outcome = some true;
  scheduled_restart = false;
}

abbrev clock : Clock
clock = record { parse = λ t. none; now = pos 0 }

version_of : postgres_version_to_int (codes "9.5.3") ≡ version (pos 90503)
unfolding postgres_version_to_int all_ints split int_of read_sign strip digit signed print_int
version_of = refl

lsn_read : parse_lsn (codes "1/0000001F") ≡ some (pos 4294967327)
unfolding parse_lsn split int_of read_sign strip digit ◌+ℤ◌ ◌*ℤ◌ signed
lsn_read = refl

for_master :
    do_post_restart primary clock
      (body (some (dict (field (codes "role") (str (codes "master")) end))))
    ≡ some (record { status = 200; text = "restarted successfully" })
unfolding do_post_restart read_json_content is_paused check_mode parse_bool get text_eq of_check
    check_keys and_check check_key restart matched restart_matches role_text started
for_master = refl

-- a timeout before the role
abbrev request : Fields
request = field (codes "timeout") (int (pos 5)) (field (codes "role") (str (codes "primary")) end)

for_primary :
    do_post_restart primary clock (body (some (dict request)))
    ≡ some (record { status = 503; text = "restart conditions are not satisfied" })
unfolding do_post_restart read_json_content is_paused check_mode parse_bool get text_eq of_check
    check_keys and_check check_key restart matched restart_matches role_text refused parse_int_unit
    floats_on strtol py_str round_ratio round_half
for_primary = refl

primary_restart_refused_example : ltb 503 300 ≡ false
unfolding is_dict has get text_eq
primary_restart_refused_example =
    primary_restart_refused primary clock request
      (record { status = 503; text = "restart conditions are not satisfied" }) refl refl refl
      for_primary
