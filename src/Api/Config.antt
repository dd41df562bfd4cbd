-- ===== src/Api/Config.antt =====
-- `do_PATCH_config` and `do_PUT_config` of .patroni/patroni/api.py. Whether the DCS takes the new
-- configuration is input.
pub mod Stored
use otus_hightload.Prelude.{ℕ, Bool, false, ◌==◌, Option, none, some, if◌then◌else◌}
use otus_hightload.Py.{Fields}
use otus_hightload.Utils.Patch.{patch_config, deep_compare}
use otus_hightload.Ha.Cycle.Calls.{ConfigKey}
use otus_hightload.Api.Request.{
  Body, Content, content, length_required, bad_request, read_json_content,
}

-- the answer, and the configuration that was written
pub record ConfigReply : Type 0 where
  pub status : ℕ
  pub body : Option Fields
  pub wrote : Option Fields

error : ℕ → ConfigReply
error status = record { status = status; body = none; wrote = none }

unchanged : Fields → ConfigReply
unchanged settings = record { status = 200; body = some settings; wrote = none }

-- the answer of the DCS to `set_config_value`
store : Bool → ℕ → Fields → ConfigReply
store written failed settings =
    if written
    then record { status = 200; body = some settings; wrote = some settings }
    else error failed

patch_stored : Option ConfigKey → Bool → Fields → ConfigReply
patch_stored none written request = error 503
patch_stored (some key) written request =
    let (settings, changed) = patch_config key.settings request in
    if key.modify_version == 0
    then error 503
    else if changed
    then store written 409 settings
    else unchanged settings

of_content : Content → (Fields → ConfigReply) → ConfigReply
of_content (content request) handle = handle request
of_content length_required handle = error 411
of_content bad_request handle = error 400

unfoldable pub do_patch_config : Option ConfigKey → Bool → Body → ConfigReply
unfolding patch_stored store unchanged error of_content
do_patch_config stored written b =
    of_content (read_json_content false b) (patch_stored stored written)

is_stored : Option ConfigKey → Fields → Bool
is_stored none request = false
is_stored (some key) request = deep_compare request key.settings

unfoldable pub do_put_config : Option ConfigKey → Bool → Body → ConfigReply
unfolding is_stored store unchanged error of_content
do_put_config stored written b =
    of_content (read_json_content false b)
      (λ request. if is_stored stored request then unchanged request else store written 502 request)
