-- ===== src/Api/Request.antt =====
-- `_read_json_content` and the checks of access of .patroni/patroni/api.py: what a request has to pass
-- before its handler runs. `none` goes on.
use otus_hightload.Prelude.{
  ℕ, Bool, true, false, not, ◌&&◌, ◌||◌, Option, none, some, List, [], ◌∷◌, any, String,
  if◌then◌else◌,
}
use otus_hightload.Prelude.Text.{Text, codes, text_eq, mem_text, non_empty, has_prefix}
use otus_hightload.Py.{Value, dict, Fields, end, field}

-- the body of a request: its `content-length` header as a number, none where it has none, and what
-- reading that much JSON gives, none where the number or the body cannot be read
pub data Body : Type 0 where
  no_length : Body
  empty_body : Body  -- a length of 0
  body : Option Value → Body

pub data Content : Type 0 where
  content : Fields → Content
  length_required : Content  -- 411
  bad_request : Content  -- 400

of_value : Bool → Option Value → Content
of_value optional (some (dict (field k v rest))) = content (field k v rest)
of_value optional (some (dict end)) = if optional then content end else bad_request
of_value optional _ = bad_request

unfoldable pub read_json_content : Bool → Body → Content
unfolding of_value
read_json_content optional no_length = if optional then content end else length_required
read_json_content optional empty_body = if optional then content end else bad_request
read_json_content optional (body v) = of_value optional v

-- the settings of the server that access depends on; an address in a network is a function
pub record Access (Address Network : Type 0) : Type 0 where
  pub allowlist : List Network
  pub allowlist_include_members : Bool
  pub members_ips : List Network  -- what the addresses of the members resolve to
  pub contains : Address → Network → Bool
  pub protocol : Text
  pub verify_client : Text
  pub auth_key : Text
  pub key_matches : Text → Bool  -- `hmac.compare_digest(auth_key, key)`

some_of {ℓ} : {A : Type ℓ} → List A → Bool
some_of [] = false
some_of (a ∷ rest) = true

drop_basic : Text → Text
drop_basic (_ ∷ _ ∷ _ ∷ _ ∷ _ ∷ _ ∷ key) = key
drop_basic _ = []

module _ {Address Network : Type 0} (a : Access Address Network) where
  header_error : Option Text → Option String
  header_error none = some "no auth header received"
  header_error (some header) =
      if not (has_prefix (codes "Basic ") header) || not (a.key_matches (drop_basic header))
      then some "not authenticated"
      else none

  unfoldable pub check_auth_header : Option Text → Option String
  unfolding header_error drop_basic
  check_auth_header header = if non_empty a.auth_key then header_error header else none

  -- the members are looked up where the setting says so
  networks : List Network → List Network → Bool → Address → Bool
  networks allowed members include ip =
      any (a.contains ip) allowed || include && any (a.contains ip) members

  code_of : Option String → Option ℕ
  code_of none = none
  code_of (some reason) = some 401

  -- the status code of the refusal
  unfoldable pub check_access : Address → Bool → Option Text → Option ℕ
  unfolding networks code_of some_of
  check_access ip has_certificate header =
      if (some_of a.allowlist || a.allowlist_include_members)
        && not (networks a.allowlist a.members_ips a.allowlist_include_members ip)
      then some 403
      else if not has_certificate
          && text_eq a.protocol (codes "https")
          && mem_text a.verify_client (codes "required" ∷ codes "optional" ∷ [])
      then some 403
      else code_of (check_auth_header header)
