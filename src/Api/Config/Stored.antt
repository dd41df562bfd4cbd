-- ===== src/Api/Config/Stored.antt =====
-- What is stored after the configuration was changed by .patroni/patroni/api.py.
use otus_hightload.Prelude.{Bool, false, none, some, ◌≡◌, arith}
use otus_hightload.Py.{Fields}
use otus_hightload.Utils.Patch.{patch_unchanged, has_null}
use otus_hightload.Ha.Cycle.Calls.{ConfigKey}
use otus_hightload.Api.Request.{
  Body, Content, content, length_required, bad_request, read_json_content,
}
use otus_hightload.Api.Config.{
  ConfigReply, do_patch_config, patch_stored, store, unchanged, error, of_content,
}

-- the configuration that the DCS holds after the answer
unfoldable pub stored_after : ConfigKey → ConfigReply → Fields
stored_after key r = elim r.wrote [ none ↦ key.settings | some settings ↦ settings ]

patched_stored :
    (key : ConfigKey) (written : Bool) (request : Fields)
    → has_null key.settings ≡ false
    → (patch_stored (some key) written request).status ≡ 200
    → (patch_stored (some key) written request).body
      ≡ some (stored_after key (patch_stored (some key) written request))
unfolding patch_stored store unchanged error stored_after
patched_stored key written request clean h = ground (arith, patch_unchanged key.settings request)

content_stored :
    (key : ConfigKey) (written : Bool) (c : Content)
    → has_null key.settings ≡ false
    → (of_content c (patch_stored (some key) written)).status ≡ 200
    → (of_content c (patch_stored (some key) written)).body
      ≡ some (stored_after key (of_content c (patch_stored (some key) written)))
unfolding of_content
content_stored key written (content request) clean h = patched_stored key written request clean h
content_stored key written length_required clean h = unfold error in absurd (omega arith)
content_stored key written bad_request clean h = unfold error in absurd (omega arith)

-- Where the stored configuration has no null, a PATCH of /config that is answered with 200 shows what
-- the DCS then holds.
pub patch_shows_stored :
    (key : ConfigKey) (written : Bool) (b : Body)
    → has_null key.settings ≡ false
    → (do_patch_config (some key) written b).status ≡ 200
    → (do_patch_config (some key) written b).body
      ≡ some (stored_after key (do_patch_config (some key) written b))
unfolding do_patch_config
patch_shows_stored key written b clean h =
    content_stored key written (read_json_content false b) clean h
