-- ===== src/Api/Health/Routes.antt =====
-- How the health checks of .patroni/patroni/api.py relate to each other on one node.
use otus_hightload.Prelude.{
  arith, if◌then◌else◌, any, not, is_some, ℕ, Bool, true, false, ◌&&◌, ◌||◌, ◌==◌, Option, none,
  some, ◌≡◌, refl, String,
}
use otus_hightload.Prelude.Text.{mem_text, has_prefix, Text, codes, text_eq, contains_text}
use otus_hightload.Api.Status.{known, Server, Response, get_postgresql_status}
use otus_hightload.Api.Health.{
  is_primary_role, synchronous_code, Query, code, answer, Codes, route, status_codes, match_tags,
  is_lagging, do_get,
}

unfoldable pub is_ok : Option ℕ → Bool
is_ok none = false
is_ok (some n) = n == 200

-- the check of this path is answered with 200
unfoldable pub passes : Server → Query → String → Bool
unfolding is_ok
passes s query path = is_ok (do_get s (codes path) query)

-- by route, where the lag could be computed
unfoldable pub verdict : Server → Query → Response → Option Bool → (Codes → Bool × Bool) → Bool
verdict s query r none f = false
verdict s query r (some l) f =
    let (ok, ignore_tags) = f (status_codes s r l) in ok && (ignore_tags || match_tags s.tags query)

abbrev pub verdict_of : Server → Query → (Codes → Bool × Bool) → Bool
verdict_of s query f =
    verdict s query (get_postgresql_status s) (is_lagging s (get_postgresql_status s) query) f

is_ok-code : (b : Bool) → is_ok (some (code b)) ≡ b
unfolding is_ok code
is_ok-code true = refl
is_ok-code false = refl

answer-verdict :
    (s : Server) (query : Query) (r : Response) (l : Option Bool) (path : Text)
    → is_ok (answer s path query r l) ≡ verdict s query r l (route s path r)
unfolding answer verdict
answer-verdict s query r none path = unfold is_ok in refl
answer-verdict s query r (some l) path = is_ok-code _

codes_exclusive :
    (s : Server) (r : Response) (l : Bool)
    → is_some (known s) ≡ true
    → let c = status_codes s r l in
      ((c.primary && c.standby_leader) ≡ false)
      × (((c.primary || c.standby_leader) && not c.leader) ≡ false)
unfolding status_codes is_primary_role
codes_exclusive s r l seen = ground arith

partition_of :
    (s : Server) (query : Query) (r : Response) (l : Option Bool)
    → is_some (known s) ≡ true
    → let v = verdict s query r l in
      let primary = v (λ c. (c.primary, true)) in
      let standby_leader = v (λ c. (c.standby_leader, true)) in
      let replica = v (λ c. (c.replica, false)) in
      let sync = v (λ c. (if r.sync_standby then c.replica else false, false)) in
      let async = v (λ c. (if not r.sync_standby then c.replica else false, false)) in
      (replica ≡ (sync || async))
      × ((sync && async) ≡ false)
      × ((primary && standby_leader) ≡ false)
      × (((primary || standby_leader) && not (v (λ c. (c.leader, true)))) ≡ false)
      × (v (λ c. (c.primary || c.standby_leader || c.replica, false))
          ≡ (match_tags s.tags query && (primary || standby_leader) || replica))
      × (v (λ c. (c.primary || c.standby_leader || r.sync_standby && c.replica, false))
          ≡ (match_tags s.tags query && (primary || standby_leader) || sync))
unfolding verdict
partition_of s query r none seen = (refl, refl, refl, refl, ground arith, ground arith)
partition_of s query r (some l) seen =
    let (apart, leads) = codes_exclusive s r l seen in
    (ground arith, ground arith, ground arith, ground arith, ground arith, ground arith)

module _ (s : Server) (query : Query) where
  abbrev pub verdicts : (Response → Codes → Bool × Bool) → Bool
  verdicts f = verdict_of s query (f (get_postgresql_status s))

  pub replica_lem : passes s query "/replica" ≡ verdicts (λ r c. (c.replica, false))
  unfolding passes do_get route synchronous_code contains_text has_prefix text_eq mem_text any
  replica_lem = answer-verdict s query _ _ (codes "/replica")

  primary_lem : passes s query "/primary" ≡ verdicts (λ r c. (c.primary, true))
  unfolding passes do_get route synchronous_code contains_text has_prefix text_eq mem_text any
  primary_lem = answer-verdict s query _ _ (codes "/primary")

  standby_leader_lem : passes s query "/standby-leader" ≡ verdicts (λ r c. (c.standby_leader, true))
  unfolding passes do_get route synchronous_code contains_text has_prefix text_eq mem_text any
  standby_leader_lem = answer-verdict s query _ _ (codes "/standby-leader")

  leader_lem : passes s query "/leader" ≡ verdicts (λ r c. (c.leader, true))
  unfolding passes do_get route synchronous_code contains_text has_prefix text_eq mem_text any
  leader_lem = answer-verdict s query _ _ (codes "/leader")

  read_only_lem :
      passes s query "/read-only"
      ≡ verdicts (λ r c. (c.primary || c.standby_leader || c.replica, false))
  unfolding passes do_get route synchronous_code contains_text has_prefix text_eq mem_text any
  read_only_lem = answer-verdict s query _ _ (codes "/read-only")

  sync_lem :
      passes s query "/sync"
      ≡ verdicts
          (λ r c. (is_some (known s) && (if r.sync_standby then c.replica else false), false))
  unfolding passes do_get route synchronous_code contains_text has_prefix text_eq mem_text any
  sync_lem = answer-verdict s query _ _ (codes "/sync")

  async_lem :
      passes s query "/async"
      ≡ verdicts
          (λ r c. (is_some (known s) && (if not r.sync_standby then c.replica else false), false))
  unfolding passes do_get route synchronous_code contains_text has_prefix text_eq mem_text any
  async_lem = answer-verdict s query _ _ (codes "/async")

  read_only_sync_lem :
      passes s query "/read-only-sync"
      ≡ verdicts (λ r c. (
        is_some (known s) && (c.primary || c.standby_leader || r.sync_standby && c.replica),
        false,
      ))
  unfolding passes do_get route synchronous_code contains_text has_prefix text_eq mem_text any
  read_only_sync_lem = answer-verdict s query _ _ (codes "/read-only-sync")

  -- how the checks divide the nodes
  pub Partition : Type 0
  Partition =
      (passes s query "/replica" ≡ (passes s query "/sync" || passes s query "/async"))
      × ((passes s query "/sync" && passes s query "/async") ≡ false)
      × ((passes s query "/primary" && passes s query "/standby-leader") ≡ false)
      × (((passes s query "/primary" || passes s query "/standby-leader")
            && not (passes s query "/leader"))
          ≡ false)
      × (passes s query "/read-only" ≡ (
          match_tags s.tags query && (passes s query "/primary" || passes s query "/standby-leader")
          || passes s query "/replica"))
      × (passes s query "/read-only-sync" ≡ (
          match_tags s.tags query && (passes s query "/primary" || passes s query "/standby-leader")
          || passes s query "/sync"))

  -- Where the node has a view of the cluster: /replica is the disjoint union of /sync and /async; no
  -- node is both /primary and /standby-leader, and each of the two is also /leader; /read-only adds
  -- /replica to those two, where the tags of the query match and whether or not they are tagged
  -- noloadbalance, and /read-only-sync adds /sync.
  pub routes-Partition : is_some (known s) ≡ true → Partition
  unfolding Partition
  routes-Partition seen =
      rw
        (
          replica_lem, primary_lem, standby_leader_lem, leader_lem, read_only_lem, sync_lem,
          async_lem, read_only_sync_lem, seen,
        )
        (partition_of s query (get_postgresql_status s)
          (is_lagging s (get_postgresql_status s) query) seen)
