-- ===== src/Dcs/Raft.antt =====
-- `KVStoreTTL` of .patroni/patroni/dcs/raft.py: the replicated dictionary with expiring keys in
-- which Patroni keeps its state without an external store. pysyncobj applies the replicated
-- methods on every node in the order of its log; `applied` is its `raftLastApplied`.
pub mod Client
pub mod Expiry
pub mod Lock
pub mod Retry
pub mod Versions
use otus_hightload.Prelude.{
  ℕ, ◌+◌, Bool, true, false, not, ◌&&◌, ◌==◌, Option, none, some, List, [], ◌∷◌, is_some,
  if◌then◌else◌,
}
use otus_hightload.Prelude.Text.{Text, text_eq}
use otus_hightload.Collections.Entries.{Entries, lookup, put, pop}

-- the dictionary that a client submits; times are in the unit of the clock
pub record Lease : Type 0 where
  pub value : Text
  pub created : ℕ
  pub updated : ℕ
  pub expire : Option ℕ

-- with the `index` that it gets when it is applied
pub record Entry : Type 0 where
  pub lease : Lease
  pub index : ℕ

abbrev pub Store : Type 0
Store = Entries Entry

pub record Requirements : Type 0 where
  pub prev_exist : Option Bool
  pub prev_value : Option Text
  pub prev_index : Option ℕ

abbrev pub no_requirements : Requirements
no_requirements = record { prev_exist = none; prev_value = none; prev_index = none }

same_Bool : Bool → Bool → Bool
same_Bool true b = b
same_Bool false b = not b

exist_ok : Option Bool → Option Entry → Bool
exist_ok none old = true
exist_ok (some b) old = same_Bool b (is_some old)

value_ok : Option Text → Option Entry → Bool
value_ok none old = true
value_ok (some v) none = false
value_ok (some v) (some e) = text_eq e.lease.value v

index_ok : Option ℕ → Option Entry → Bool
index_ok none old = true
index_ok (some i) none = false
index_ok (some i) (some e) = e.index == i

unfoldable pub check_requirements : Option Entry → Requirements → Bool
unfolding exist_ok value_ok index_ok same_Bool
check_requirements old r =
    exist_ok r.prev_exist old && value_ok r.prev_value old && index_ok r.prev_index old

-- a key that is replaced by a newer creation counts as created now
unfoldable pub settle : Option Entry → Lease → Lease
settle none l = l
settle (some old) l = if old.lease.created == l.created then l else record l { created = l.updated }

-- `_set`; `none` is `False`
unfoldable pub set_applied : ℕ → Text → Lease → Requirements → Store → Store × Option Entry
set_applied applied key l r d =
    let old = lookup key d in
    let e : Entry = record { lease = settle old l; index = applied + 1 } in
    if check_requirements old r then (put key e d, some e) else (d, none)

-- What `_delete` comes to: `False`, `True`, or the `KeyError` of a key that is not there.
pub data Deletion : Type 0 where
  refused : Deletion
  deleted : Deletion
  key_error : Deletion

unfoldable pub starts_with : Text → Text → Bool
starts_with [] s = true
starts_with (c ∷ prefix) [] = false
starts_with (c ∷ prefix) (d ∷ s) = (c == d) && starts_with prefix s

unfoldable pub pop_prefix : Text → Store → Store
pop_prefix prefix [] = []
pop_prefix prefix ((k, e) ∷ d) =
    let rest = pop_prefix prefix d in if starts_with prefix k then rest else (k, e) ∷ rest

unfoldable pub delete_applied : Text → Bool → Requirements → Store → Store × Deletion
delete_applied key recursive r d =
    if recursive
    then (pop_prefix key d, deleted)
    else if not (check_requirements (lookup key d) r)
    then (d, refused)
    else if is_some (lookup key d)
    then (pop key d, deleted)
    else (d, key_error)

same_expire : Option ℕ → Option ℕ → Bool
same_expire none none = true
same_expire none (some t) = false
same_expire (some t) none = false
same_expire (some t) (some u) = t == u

unfoldable pub values_match : Lease → Lease → Bool
unfolding same_expire
values_match a b =
    (a.created == b.created)
    && (a.updated == b.updated)
    && same_expire a.expire b.expire
    && text_eq a.value b.value

expire_found : Option Entry → Text → Lease → Store → Store
expire_found none key l d = d
expire_found (some e) key l d = if values_match e.lease l then pop key d else d

-- `_expire`
unfoldable pub expire_applied : Text → Lease → Store → Store
unfolding expire_found
expire_applied key l d = expire_found (lookup key d) key l d

old_created : Option Entry → ℕ → ℕ
old_created none now = now
old_created (some e) now = e.lease.created

-- `if ttl:`
expires_at : Option ℕ → ℕ → Option ℕ
expires_at none now = none
expires_at (some ttl) now = if ttl == 0 then none else some (now + ttl)

-- what `set` submits, after the same test on the local copy; `none` is `False`
unfoldable pub set_submits : ℕ → Text → Text → Option ℕ → Requirements → Store → Option Lease
unfolding old_created expires_at
set_submits now key value ttl r local =
    let old = lookup key local in
    if check_requirements old r
    then some (record {
      value = value;
      created = old_created old now;
      updated = now;
      expire = expires_at ttl now;
    })
    else none

-- a replicated call
pub data Command : Type 0 where
  sets : Text → Lease → Requirements → Command
  deletes : Text → Bool → Requirements → Command
  expires : Text → Lease → Command

unfoldable pub apply : ℕ → Command → Store → Store
apply applied (sets key l r) d = (set_applied applied key l r d).0
apply applied (deletes key recursive r) d = (delete_applied key recursive r d).0
apply applied (expires key l) d = expire_applied key l d

-- the log from the entry after `applied` on
unfoldable pub replay : ℕ → List Command → Store → Store
replay applied [] d = d
replay applied (c ∷ rest) d = replay (applied + 1) rest (apply applied c d)
