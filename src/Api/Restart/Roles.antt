-- ===== src/Api/Restart/Roles.antt =====
-- The role in a request for a restart to .patroni/patroni/api.py.
use mathlib.Core.Path.{subst}
use otus_hightload.Prelude.{not, ◌&&◌}
use otus_hightload.Prelude.Text.{text_eq_iff}
use otus_hightload.Ha.Restart.Roles.{primary_never_matches}
use otus_hightload.Prelude.{
  ltb, sym, any, String, Bool-cases, ◌∙◌, Bool, true, false, Option, none, some, ◌≡◌, refl, inl,
  inr, arith, if◌then◌else◌,
}
use otus_hightload.Prelude.Text.{Text, codes, text_eq, mem_text}
use otus_hightload.Py.{Value, str, Fields, end, field, dict, has, get}
use mathlib.Core.Option.{some-injective}
use otus_hightload.Ha.Restart.{Filters, Instance, restart, matched, refused}
use otus_hightload.Api.Schedule.{Clock}
use otus_hightload.Prelude.Int.{ℤ, pos, ltb_ℤ}
use otus_hightload.Postgresql.Misc.{
  Version, version, invalid_version, invalid_format, value_error, postgres_version_to_int,
}
use otus_hightload.Utils.{parse_int_unit, py_str}
use otus_hightload.Api.Request.{body, read_json_content}
use otus_hightload.Api.Restart.{
  of_content, of_restart, of_version, check_version, check_timeout, check_key, and_check, Check,
  go_on, error, exception, check_keys, no_filters, Answer, of_check, do_post_restart,
}

-- The check of a key keeps the role and the schedule, or refuses.
Keeps : Filters → Check → Type 0
Keeps f (go_on g) = (g.role ≡ f.role) × (g.scheduled ≡ f.scheduled)
Keeps f (error code why) = ltb code 300 ≡ false
Keeps f exception = Unit

version-Keeps : (f : Filters) (t : Text) (v : Version) → Keeps f (of_version f t v)
unfolding Keeps of_version
version-Keeps f t (version n) = (refl, refl)
version-Keeps f t invalid_version = refl
version-Keeps f t invalid_format = refl
version-Keeps f t value_error = tt

check_version-Keeps : (f : Filters) (v : Value) → Keeps f (check_version f v)
unfolding check_version Keeps
check_version-Keeps f (str t) = version-Keeps f t (postgres_version_to_int t)
check_version-Keeps f v = tt

timeout-Keeps : (f : Filters) (n : Option ℤ) → Keeps f (check_timeout f n)
unfolding Keeps check_timeout
timeout-Keeps f none = refl
timeout-Keeps f (some n) = elim (Bool-cases (ltb_ℤ (pos 0) n)) [
  | inl e ↦ rw e (refl, refl)
  | inr e ↦ rw e
]

pending-Keeps : (f : Filters) → Keeps f (go_on (record f { restart_pending = true }))
unfolding Keeps
pending-Keeps f = (refl, refl)

unknown-Keeps : (f : Filters) (why : String) → Keeps f (error 400 why)
unfolding Keeps
unknown-Keeps f why = refl

if-Keeps :
    (f : Filters) (b : Bool) (x y : Check) → Keeps f x → Keeps f y → Keeps f (if b then x else y)
if-Keeps f true x y p q = p
if-Keeps f false x y p q = q

check_key-Keeps :
    (c : Clock) (f : Filters) (key : Text) (v : Value)
    → text_eq key (codes "schedule") ≡ false
    → text_eq key (codes "role") ≡ false
    → Keeps f (check_key c f key v)
unfolding check_key
check_key-Keeps c f key v a b =
    rw (a, b)
      (if-Keeps f (text_eq key (codes "postgres_version")) _ _ (check_version-Keeps f v) (
        if-Keeps f (text_eq key (codes "timeout")) _ _
          (timeout-Keeps f (parse_int_unit (py_str v) (codes "s")))
          (if-Keeps f (text_eq key (codes "restart_pending")) _ _ (pending-Keeps f)
            (unknown-Keeps f _))))

trans-Keeps :
    (f g : Filters) (x : Check)
    → g.role ≡ f.role
    → g.scheduled ≡ f.scheduled
    → Keeps g x
    → Keeps f x
unfolding Keeps
trans-Keeps f g (go_on h) role scheduled (p, q) = (p ∙ role, q ∙ scheduled)
trans-Keeps f g (error code why) role scheduled k = k
trans-Keeps f g exception role scheduled k = tt

and-Keeps :
    (f : Filters) (x : Check) (k : Filters → Check)
    → Keeps f x
    → ((g : Filters) → Keeps g (k g))
    → Keeps f (and_check x k)
unfolding Keeps and_check
and-Keeps f (go_on g) k (role, scheduled) rest = trans-Keeps f g (k g) role scheduled (rest g)
and-Keeps f (error code why) k kept rest = kept
and-Keeps f exception k kept rest = tt

no_head :
    (name key : Text) (v : Value) (rest : Fields)
    → has name (field key v rest) ≡ false
    → text_eq key name ≡ false
unfolding has get
no_head name key v rest h = ground arith

no_tail :
    (name key : Text) (v : Value) (rest : Fields)
    → has name (field key v rest) ≡ false
    → has name rest ≡ false
unfolding has get
no_tail name key v rest h = ground arith

check_keys-Keeps :
    (c : Clock) (f : Filters) (request : Fields)
    → has (codes "schedule") request ≡ false
    → has (codes "role") request ≡ false
    → Keeps f (check_keys c f request)
unfolding check_keys
check_keys-Keeps c f end a b = unfold Keeps in (refl, refl)
check_keys-Keeps c f (field key v rest) a b =
    and-Keeps f (check_key c f key v) (λ g. check_keys c g rest)
      (check_key-Keeps c f key v (no_head _ key v rest a) (no_head _ key v rest b))
      (λ g. check_keys-Keeps c g rest (no_tail _ key v rest a) (no_tail _ key v rest b))

refused_restart :
    (i : Instance) (f : Filters)
    → f.role ≡ codes "primary"
    → ltb (of_restart (restart i f false)).status 300 ≡ false
unfolding restart
refused_restart i f role = elim (primary_never_matches i f role) [
  | inl e ↦ rw e (unfold matched of_restart in refl)
  | inr e ↦ rw e (unfold matched of_restart refused in refl)
]

at_once :
    (b : Bool) (x y : Answer)
    → b ≡ false
    → ltb y.status 300 ≡ false
    → ltb (if b then x else y).status 300 ≡ false
at_once true x y e h = cc
at_once false x y e h = h

answered :
    (i : Instance) (f : Filters) (x : Check)
    → Keeps f x
    → f.role ≡ codes "primary"
    → f.scheduled ≡ false
    → (r : Answer) → of_check i x ≡ some r
    → ltb r.status 300 ≡ false
unfolding Keeps of_check
answered i f (go_on g) (role, scheduled) p q r h =
    rw (← some-injective _ _ h)
      (at_once g.scheduled _ _ (scheduled ∙ q) (refused_restart i g (role ∙ p)))
answered i f (error code why) k p q r h = rw (← some-injective _ _ h) k
answered i f exception k p q r h = cc

-- the keys of a dictionary: none is there twice
unfoldable pub is_dict : Fields → Bool
is_dict end = true
is_dict (field key v rest) = not (has key rest) && is_dict rest

abbrev with_primary : Filters → Filters
with_primary f = record f { role = codes "primary" }

role_checked :
    (c : Clock) (f : Filters)
    → check_key c f (codes "role") (str (codes "primary")) ≡ go_on (with_primary f)
unfolding check_key text_eq mem_text any
role_checked c f = refl

and-primary :
    (f : Filters) (x : Check) (k : Filters → Check)
    → Keeps f x
    → ((g : Filters) → Keeps (with_primary g) (k g))
    → Keeps (with_primary f) (and_check x k)
unfolding Keeps and_check
and-primary f (go_on g) k (role, scheduled) rest =
    trans-Keeps (with_primary f) (with_primary g) (k g) refl scheduled (rest g)
and-primary f (error code why) k kept rest = kept
and-primary f exception k kept rest = kept

later_role :
    (key : Text) (v : Value) (rest : Fields)
    → text_eq key (codes "role") ≡ false
    → get (codes "role") (field key v rest) ≡ some (str (codes "primary"))
    → get (codes "role") rest ≡ some (str (codes "primary"))
unfolding get
later_role key v rest other h = ground arith

head_value :
    (key : Text) (v : Value) (rest : Fields)
    → text_eq key (codes "role") ≡ true
    → get (codes "role") (field key v rest) ≡ some (str (codes "primary"))
    → v ≡ str (codes "primary")
unfolding get
head_value key v rest same h = ground arith

dict_parts :
    (key : Text) (v : Value) (rest : Fields)
    → is_dict (field key v rest) ≡ true
    → (has key rest ≡ false) × (is_dict rest ≡ true)
unfolding is_dict
dict_parts key v rest h = ground arith

checked_role :
    (c : Clock) (f : Filters) (request : Fields)
    → is_dict request ≡ true
    → has (codes "schedule") request ≡ false
    → get (codes "role") request ≡ some (str (codes "primary"))
    → Keeps (with_primary f) (check_keys c f request)
unfolding check_keys
checked_role c f end d a h = unfold get in absurd (cc h)
checked_role c f (field key v rest) d a h =
    let (once, d') = dict_parts key v rest d in
    elim (Bool-cases (text_eq key (codes "role"))) [
      | inl e ↦
          let same = (text_eq_iff key (codes "role")).0 e in
          rw (same, head_value key v rest e h, role_checked c f)
            (unfold and_check in
              check_keys-Keeps c (with_primary f) rest (no_tail _ key v rest a)
                (subst (λ k. has k rest ≡ false) same once))
      | inr e ↦
          and-primary f (check_key c f key v) (λ g. check_keys c g rest)
            (check_key-Keeps c f key v (no_head _ key v rest a) e)
            (λ g. checked_role c g rest d' (no_tail _ key v rest a) (later_role key v rest e h))
    ]

of_request :
    (i : Instance) (c : Clock) (request : Fields)
    → has (codes "schedule") request ≡ false
    → do_post_restart i c (body (some (dict request)))
      ≡ of_check i (check_keys c no_filters request)
unfolding do_post_restart of_content read_json_content
of_request i c end h = rw h (ground arith)
of_request i c (field key v rest) h = rw h (ground arith)

-- A request for a restart of the nodes whose role is `primary`, which the API takes for a role, is
-- never done where it has no schedule, whatever the role of the node, the other filters and their
-- order.
pub primary_restart_refused :
    (i : Instance) (c : Clock) (request : Fields) (r : Answer)
    → is_dict request ≡ true
    → has (codes "schedule") request ≡ false
    → get (codes "role") request ≡ some (str (codes "primary"))
    → do_post_restart i c (body (some (dict request))) ≡ some r
    → ltb r.status 300 ≡ false
primary_restart_refused i c request r d a role h =
    answered i (with_primary no_filters) (check_keys c no_filters request)
      (checked_role c no_filters request d a role) refl refl r (sym (of_request i c request a) ∙ h)
