-- ===== src/Dcs/Raft/Lock.antt =====
-- The leader key of .patroni/patroni/dcs/raft.py as a lock: `attempt_to_acquire_leader`,
-- `_update_leader`, `_delete_leader`, `take_leader` and `delete_cluster` against the replicated store.
use otus_hightload.Prelude.{
  true, ◌<◌, ◌≤◌, ℕ, ◌+◌, false, ◌&&◌, ◌==◌, Option, none, some, List, [], ◌∷◌, ◌≡◌, refl, ◌∙◌,
  arith, ap, if◌then◌else◌, map,
}
use otus_hightload.Prelude.Text.{Text, text_eq, text_eq_refl}
use otus_hightload.Collections.Entries.{lookup, IsDistinct, lookup-put, lookup-pop}
use otus_hightload.Dcs.Raft.{
  Lease, Entry, Store, Requirements, no_requirements, check_requirements, settle, set_applied,
  delete_applied, values_match, expire_applied, expire_found, Command, sets, deletes, expires,
  apply, replay, starts_with,
}
use otus_hightload.Dcs.Raft.Versions.{lookup-pop_prefix, apply-IsDistinct}

-- What reaches the leader key: a node's call, which it makes in its own name, the expiry of a lease,
-- and the deletion of the cluster, whose path begins the key; or what is asked of another key.
pub data Request : Type 0 where
  acquires : Lease → Request
  takes : Lease → Request  -- `take_leader`
  renews : Lease → Request
  releases : Text → Request
  lapses : Lease → Request
  wipes : Text → Request  -- `delete_cluster`
  writes : Text → Lease → Requirements → Request
  removes : Text → Requirements → Request
  ends : Text → Lease → Request  -- the expiry of another lease

-- the replicated call of a request, at the key `path`
unfoldable pub command : Text → Request → Command
command path (acquires l) = sets path l (record no_requirements { prev_exist = some false })
command path (takes l) = sets path l no_requirements
command path (renews l) = sets path l (record no_requirements { prev_value = some l.value })
command path (releases name) =
    deletes path false (record no_requirements { prev_value = some name })
command path (lapses l) = expires path l
command path (wipes prefix) = deletes prefix true no_requirements
command path (writes key l r) = sets key l r
command path (removes key r) = deletes key false r
command path (ends key l) = expires key l

-- The lock that the leader key stands for: free, or held under a lease.
abbrev pub Lock : Type 0
Lock = Option Lease

-- a new lease, which keeps its creation only where the old one has the same
abbrev taken : Lease → Lease → Lease
taken held l = if held.created == l.created then l else record l { created = l.updated }

unfoldable pub lock_step : Request → Lock → Lock
lock_step (acquires l) none = some l
lock_step (acquires l) (some held) = some held
lock_step (takes l) none = some l
lock_step (takes l) (some held) = some (taken held l)
lock_step (renews l) none = none
lock_step (renews l) (some held) =
    if text_eq held.value l.value then some (taken held l) else some held
lock_step (releases name) none = none
lock_step (releases name) (some held) = if text_eq held.value name then none else some held
lock_step (lapses l) none = none
lock_step (lapses l) (some held) = if values_match held l then none else some held
lock_step (wipes prefix) lock = none
lock_step (writes key l r) lock = lock
lock_step (removes key r) lock = lock
lock_step (ends key l) lock = lock

unfoldable pub lock_run : List Request → Lock → Lock
lock_run [] lock = lock
lock_run (q ∷ rest) lock = lock_run rest (lock_step q lock)

lease_of : Option Entry → Option Lease
lease_of none = none
lease_of (some e) = some e.lease

unfoldable pub lock_of : Text → Store → Lock
unfolding lease_of
lock_of path d = lease_of (lookup path d)

-- What is meant for another key is; the path of the cluster begins the leader key.
abbrev pub IsElsewhere : Text → Request → Type 0
IsElsewhere path (writes key l r) = text_eq key path ≡ false
IsElsewhere path (removes key r) = text_eq key path ≡ false
IsElsewhere path (ends key l) = text_eq key path ≡ false
IsElsewhere path (wipes prefix) = starts_with prefix path ≡ true
IsElsewhere path _ = Unit

abbrev pub All {ℓ κ} : {A : Type ℓ} → (A → Type κ) → List A → Type κ
All P [] = Unit
All P (x ∷ xs) = P x × All P xs

lookup-set_applied :
    (applied : ℕ) (key j : Text) (l : Lease) (r : Requirements) (d : Store)
    → lookup j (set_applied applied key l r d).0 ≡ (
        if check_requirements (lookup key d) r && text_eq key j
        then some (record { lease = settle (lookup key d) l; index = applied + 1 })
        else lookup j d)
unfolding set_applied
lookup-set_applied applied key j l r d =
    let e : Entry = record { lease = settle (lookup key d) l; index = applied + 1 } in
    ground (arith, lookup-put key j e d)

-- One request changes the leader key as it changes the lock.
step_refines :
    (path : Text) (applied : ℕ) (q : Request) (d : Store)
    → IsDistinct d
    → IsElsewhere path q
    → lock_of path (apply applied (command path q) d) ≡ lock_step q (lock_of path d)
unfolding lock_of lock_step apply command check_requirements settle
step_refines path applied (acquires l) d h e = ground (
  arith,
  lookup-set_applied applied path path l (record no_requirements { prev_exist = some false }) d,
  text_eq_refl path,
)
step_refines path applied (takes l) d h e =
    ground (arith, lookup-set_applied applied path path l no_requirements d, text_eq_refl path)
step_refines path applied (renews l) d h e = ground (
  arith,
  lookup-set_applied applied path path l (record no_requirements { prev_value = some l.value }) d,
  text_eq_refl path,
)
step_refines path applied (releases name) d h e =
    unfold delete_applied in ground (arith, lookup-pop path path d h, text_eq_refl path)
step_refines path applied (lapses l) d h e =
    unfold expire_applied expire_found in
    ground (arith, lookup-pop path path d h, text_eq_refl path)
step_refines path applied (writes key l r) d h e =
    ground (arith, lookup-set_applied applied key path l r d)
step_refines path applied (wipes prefix) d h e =
    unfold delete_applied in ground (arith, lookup-pop_prefix prefix path d)
step_refines path applied (removes key r) d h e =
    unfold delete_applied in ground (arith, lookup-pop key path d h)
step_refines path applied (ends key l) d h e =
    unfold expire_applied expire_found in ground (arith, lookup-pop key path d h)

-- A replay of the log, with any requests for the leader key, take_leader and delete_cluster included,
-- and any writes, deletions and expiries of other keys, in any order, leaves the leader key as a
-- lock would be after the same requests.
pub replay_refines :
    (path : Text) (applied : ℕ) (qs : List Request) (d : Store)
    → IsDistinct d
    → All (IsElsewhere path) qs
    → lock_of path (replay applied (map (command path) qs) d) ≡ lock_run qs (lock_of path d)
unfolding replay lock_run
replay_refines path applied [] d h e = refl
replay_refines path applied (q ∷ qs) d h e =
    replay_refines path (applied + 1) qs (apply applied (command path q) d)
      (apply-IsDistinct applied (command path q) d h) e.1
    ∙ ap (lock_run qs) (step_refines path applied q d h e.0)

-- What other nodes, and the expiry of leases that end at `t` or before, may ask of a lock, but for the
-- two calls that no condition stops: `take_leader` and `delete_cluster`.
abbrev pub IsForeign : Text → ℕ → Request → Type 0
IsForeign name t (acquires l) = Unit
IsForeign name t (renews l) = text_eq name l.value ≡ false
IsForeign name t (releases n) = text_eq name n ≡ false
IsForeign name t (lapses l) = (u : ℕ) × (l.expire ≡ some u) × (u ≤ t)
IsForeign name t (takes l) = ⊥
IsForeign name t (wipes prefix) = ⊥
IsForeign name t q = Unit

lapse_misses :
    (held l : Lease) (t u : ℕ)
    → held.expire ≡ some u
    → t < u
    → IsForeign held.value t (lapses l)
    → values_match held l ≡ false
unfolding values_match
lapse_misses held l t u e lt (v, ev, le) = rw (e, ev) (ground arith)

foreign_step :
    (held : Lease) (t u : ℕ) (q : Request)
    → held.expire ≡ some u
    → t < u
    → IsForeign held.value t q
    → lock_step q (some held) ≡ some held
unfolding lock_step
foreign_step held t u (acquires l) e lt f = refl
foreign_step held t u (renews l) e lt f = rw f refl
foreign_step held t u (releases n) e lt f = rw f refl
foreign_step held t u (lapses l) e lt f = rw (lapse_misses held l t u e lt f) refl
foreign_step held t u (takes l) e lt f = absurd f
foreign_step held t u (wipes prefix) e lt f = absurd f
foreign_step held t u (writes key l r) e lt f = refl
foreign_step held t u (removes key r) e lt f = refl
foreign_step held t u (ends key l) e lt f = refl

foreign_run :
    (held : Lease) (t u : ℕ) (qs : List Request)
    → held.expire ≡ some u
    → t < u
    → All (IsForeign held.value t) qs
    → lock_run qs (some held) ≡ some held
unfolding lock_run
foreign_run held t u [] e lt f = refl
foreign_run held t u (q ∷ qs) e lt f =
    ap (lock_run qs) (foreign_step held t u q e lt f.0) ∙ foreign_run held t u qs e lt f.1

-- Until its lease ends the leader key of the Raft store stays with the node that holds it, under the
-- same lease, as long as no node calls take_leader or delete_cluster: whichever nodes try to acquire
-- it, whichever other names renew or release it, whatever is asked of other keys, and whichever
-- leases that have ended expire.
pub lease_protects :
    (path : Text) (applied : ℕ) (qs : List Request) (d : Store) (held : Lease) (t u : ℕ)
    → IsDistinct d
    → lock_of path d ≡ some held
    → held.expire ≡ some u
    → t < u
    → All (IsElsewhere path) qs
    → All (IsForeign held.value t) qs
    → lock_of path (replay applied (map (command path) qs) d) ≡ some held
lease_protects path applied qs d held t u h at e lt elsewhere foreign =
    replay_refines path applied qs d h elsewhere
    ∙ ap (lock_run qs) at
    ∙ foreign_run held t u qs e lt foreign
