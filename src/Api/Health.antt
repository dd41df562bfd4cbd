-- ===== src/Api/Health.antt =====
-- `do_GET`, `do_GET_liveness` and `do_GET_readiness` of .patroni/patroni/api.py: the health checks by
-- which load balancers choose the nodes that get connections. `none` is an exception.
pub mod Routes
pub mod Replica
use otus_hightload.Prelude.{
  ℕ, ◌+◌, ◌*◌, Bool, true, false, not, ◌&&◌, ◌||◌, ltb, ◌==◌, Option, none, some, is_some, List, [],
  ◌∷◌, if◌then◌else◌,
}
use otus_hightload.Prelude.Int.{ℤ, pos, ◌+ℤ◌, ltb_ℤ}
use otus_hightload.Prelude.Text.{Text, codes, text_eq, mem_text, lower, has_prefix, contains_text}
use otus_hightload.Py.{Value, null, str, Fields, get, or_null}
use otus_hightload.Tags.{noloadbalance}
use otus_hightload.Utils.{parse_int_unit, py_str}
use otus_hightload.GlobalConfig.{is_standby_cluster}
use otus_hightload.Dcs.Cluster.{Cluster}
use otus_hightload.Api.Status.{Server, Response, Xlog, replica_xlog, known, get_postgresql_status}

-- `path_query`: the first value of each parameter
abbrev pub Query : Type 0
Query = List (Text × Text)

abbrev pub http_ok : ℕ
http_ok = 200

abbrev pub service_unavailable : ℕ
service_unavailable = 503

code : Bool → ℕ
code true = http_ok
code false = service_unavailable

param : Text → Query → Option Text
param key [] = none
param key ((k, v) ∷ rest) = let later = param key rest in if text_eq k key then some v else later

-- `sys.maxsize`
abbrev maxsize : ℤ
maxsize = pos 9223372036854775807

or_maxsize : Option ℤ → ℤ
or_maxsize none = maxsize
or_maxsize (some n) = n

limit_of : Option Text → ℤ
limit_of none = maxsize
limit_of (some lag) = or_maxsize (parse_int_unit lag (codes "B"))

unfoldable pub max_replica_lag : Query → ℤ
unfolding param limit_of or_maxsize
max_replica_lag query = limit_of (param (codes "lag") query)

leader_lsn : Option Cluster → ℤ
leader_lsn none = pos 0
leader_lsn (some c) = c.status.last_lsn

unfoldable pub leader_optime : Server → ℤ
unfolding leader_lsn
leader_optime s = leader_lsn (known s)

-- `.get('replayed_location', 0)`
unfoldable pub replayed_location : Xlog → Option ℤ
replayed_location (replica_xlog received replayed timestamp paused) = replayed
replayed_location _ = some (pos 0)

unfoldable pub is_zero : ℤ → Bool
is_zero (pos n) = n == 0
is_zero _ = false

unfoldable pub exceeds_lag : ℤ → Option ℤ → ℤ → Option Bool
exceeds_lag optime none lag = none
exceeds_lag optime (some replayed) lag = some (ltb_ℤ (replayed +ℤ lag) optime)

unfoldable pub is_lagging : Server → Response → Query → Option Bool
unfolding is_zero exceeds_lag
is_lagging s r query =
    if is_zero (leader_optime s)
    then some false
    else exceeds_lag (leader_optime s) (replayed_location r.xlog) (max_replica_lag query)

abbrev pub has_role : Response → Text → Bool
has_role r role = text_eq r.role role

unfoldable pub is_primary_role : Response → Bool
is_primary_role r = has_role r (codes "master") || has_role r (codes "primary")

-- the four status codes, true for 200
pub record Codes : Type 0 where
  pub leader : Bool
  pub primary : Bool
  pub standby_leader : Bool
  pub replica : Bool

unfoldable pub replica_code : Server → Response → Bool → Bool
replica_code s r lagging =
    not (noloadbalance s.tags)
    && not lagging
    && has_role r (codes "replica")
    && text_eq r.state (codes "running")

unfoldable pub status_codes : Server → Response → Bool → Codes
unfolding is_primary_role
status_codes s r lagging =
    let replica = replica_code s r lagging in
    if not (is_some (known s)) && r.pause
    then record {
      leader = is_primary_role r || has_role r (codes "standby_leader");
      primary = is_primary_role r;
      standby_leader = has_role r (codes "standby_leader");
      replica = replica;
    }
    else if s.is_leader
    then (if is_standby_cluster s.config
        then record {
          leader = true;
          primary = false;
          standby_leader = has_role r (codes "replica") || has_role r (codes "standby_leader");
          replica = false;
        }
        else record { leader = true; primary = true; standby_leader = false; replica = replica })
    else record { leader = false; primary = false; standby_leader = false; replica = replica }

-- the paths of the last branch, for which the DCS is needed
synchronous_code : Text → Response → Codes → Bool
synchronous_code path r c =
    if mem_text path (codes "/sync" ∷ codes "/synchronous" ∷ []) && r.sync_standby
    then c.replica
    else if mem_text path (codes "/async" ∷ codes "/asynchronous" ∷ []) && not r.sync_standby
    then c.replica
    else if mem_text path (codes "/read-only-sync" ∷ codes "/read-only-synchronous" ∷ [])
    then c.primary || c.standby_leader || r.sync_standby && c.replica
    else false

-- the code, and whether the tags are ignored
unfoldable pub route : Server → Text → Response → Codes → Bool × Bool
unfolding synchronous_code
route s path r c =
    let has = λ (part : Text). contains_text part path in
    if has (codes "standby_leader") || has (codes "standby-leader")
    then (c.standby_leader, true)
    else if has (codes "leader")
    then (c.leader, true)
    else if has (codes "master") || has (codes "primary") || has (codes "read-write")
    then (c.primary, true)
    else if has (codes "replica")
    then (c.replica, false)
    else if has (codes "read-only") && not (has (codes "sync"))
    then (c.primary || c.standby_leader || c.replica, false)
    else if has (codes "health")
    then (text_eq r.state (codes "running"), false)
    else (is_some (known s) && synchronous_code path r c, false)

-- the value of a tag as the query writes it; none where there is no such tag
tag_text : Value → Option Text
tag_text null = none
tag_text (str t) = some t
tag_text v = some (lower (py_str v))

tag_is : Option Text → Text → Bool
tag_is none value = false
tag_is (some t) value = text_eq t value

-- `qs_key[len(qs_tag_prefix):]`
after_prefix : Text → Text → Text
after_prefix [] s = s
after_prefix (c ∷ p) [] = []
after_prefix (c ∷ p) (d ∷ s) = after_prefix p s

-- the user defined tags of the query
unfoldable pub match_tags : Fields → Query → Bool
unfolding tag_text tag_is after_prefix
match_tags tags [] = true
match_tags tags ((key, value) ∷ rest) =
    let later = match_tags tags rest in
    if has_prefix (codes "tag_") key
    then tag_is (tag_text (or_null (get (after_prefix (codes "tag_") key) tags))) value && later
    else later

answer : Server → Text → Query → Response → Option Bool → Option ℕ
answer s path query r none = none
answer s path query r (some lagging) =
    let (ok, ignore_tags) = route s path r (status_codes s r lagging) in
    some (code (ok && (ignore_tags || match_tags s.tags query)))

-- the status code of a health check
unfoldable pub do_get : Server → Text → Query → Option ℕ
unfolding answer code
do_get s path query =
    let r = get_postgresql_status s in
    let path' = if text_eq path (codes "/") then codes "/primary" else path in
    answer s path' query r (is_lagging s r query)

-- The loop has run within `ttl` seconds, twice as many on a replica.
unfoldable pub do_get_liveness : Bool → Bool → ℕ → ℕ → ℕ → ℕ
unfolding code
do_get_liveness is_primary is_paused ttl next_run now =
    code (is_paused || ltb now (next_run + ttl * (if is_primary then 1 else 2)))

unfoldable pub do_get_readiness : Server → ℕ
unfolding code
do_get_readiness s = code (s.is_leader || text_eq s.pg_state (codes "running") && is_some (known s))
