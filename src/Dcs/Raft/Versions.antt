-- ===== src/Dcs/Raft/Versions.antt =====
-- The versions of .patroni/patroni/dcs/raft.py: a conditional write sees every change of its key.
use otus_hightload.Prelude.{
  ℕ, ◌+◌, ◌≤◌, true, ◌⊎◌, Option, none, some, List, [], ◌∷◌, ◌≡◌, refl, arith, if◌then◌else◌,
}
use otus_hightload.Prelude.Text.{Text, text_eq_iff}
use otus_hightload.Collections.Entries.{
  lookup, IsDistinct, lookup-put, lookup-pop, put-IsDistinct, pop-IsDistinct,
}
use otus_hightload.Dcs.Raft.{
  Lease, Entry, Store, no_requirements, check_requirements, settle, set_applied, delete_applied,
  pop_prefix, starts_with, expire_applied, expire_found, Command, sets, deletes, expires, apply,
  replay,
}

pub lookup-pop_prefix :
    (prefix key : Text) (d : Store)
    → lookup key (pop_prefix prefix d) ≡ (if starts_with prefix key then none else lookup key d)
unfolding lookup pop_prefix
lookup-pop_prefix prefix key [] = ground arith
lookup-pop_prefix prefix key ((k, e) ∷ d) =
    let ih = lookup-pop_prefix prefix key d in ground (arith, ih, text_eq_iff k key)

pop_prefix-IsDistinct :
    (prefix : Text) (d : Store) → IsDistinct d → IsDistinct (pop_prefix prefix d)
unfolding pop_prefix
pop_prefix-IsDistinct prefix [] h = tt
pop_prefix-IsDistinct prefix ((k, e) ∷ d) h =
    let ih = pop_prefix-IsDistinct prefix d h.1 in ground (arith, ih, lookup-pop_prefix prefix k d)

pub apply-IsDistinct :
    (applied : ℕ) (c : Command) (d : Store) → IsDistinct d → IsDistinct (apply applied c d)
unfolding apply set_applied delete_applied expire_applied expire_found
apply-IsDistinct applied (sets key l r) d h =
    let e : Entry = record { lease = settle (lookup key d) l; index = applied + 1 } in
    ground (arith, put-IsDistinct key e d h)
apply-IsDistinct applied (deletes key recursive r) d h =
    ground (arith, pop_prefix-IsDistinct key d h, pop-IsDistinct key d h)
apply-IsDistinct applied (expires key l) d h = ground (arith, pop-IsDistinct key d h)

-- An entry that is there after a command was there before, or has the command's index.
apply_origin :
    (applied : ℕ) (c : Command) (d : Store) (key : Text) (e : Entry)
    → IsDistinct d
    → lookup key (apply applied c d) ≡ some e
    → (e.index ≡ applied + 1) ⊎ (lookup key d ≡ some e)
unfolding apply set_applied delete_applied expire_applied expire_found
apply_origin applied (sets k l r) d key e h at =
    let new : Entry = record { lease = settle (lookup k d) l; index = applied + 1 } in
    ground (arith, lookup-put k key new d)
apply_origin applied (deletes k recursive r) d key e h at =
    ground (arith, lookup-pop_prefix k key d, lookup-pop k key d h)
apply_origin applied (expires k l) d key e h at = ground (arith, lookup-pop k key d h)

replay_origin :
    (seen applied : ℕ) (cs : List Command) (d : Store) (key : Text) (e : Entry)
    → seen ≤ applied
    → IsDistinct d
    → lookup key (replay applied cs d) ≡ some e
    → e.index ≤ seen
    → lookup key d ≡ some e
unfolding replay
replay_origin seen applied [] d key e le h at old = at
replay_origin seen applied (c ∷ cs) d key e le h at old =
    let at' =
      replay_origin seen (applied + 1) cs (apply applied c d) key e (omega arith)
        (apply-IsDistinct applied c d h) at old in
    ground (arith, apply_origin applied c d key e h at')

version_seen :
    (o : Option Entry) (v : ℕ)
    → check_requirements o (record no_requirements { prev_index = some v }) ≡ true
    → (seen : Entry) × (o ≡ some seen) × (seen.index ≡ v)
unfolding check_requirements
version_seen none v h = ground (arith, h)
version_seen (some e) v h = (e, refl, ground (arith, h))

set-some :
    (later version : ℕ) (d : Store) (key : Text) (l : Lease) (e : Entry)
    → (set_applied later key l (record no_requirements { prev_index = some version }) d).1 ≡ some e
    → check_requirements (lookup key d) (record no_requirements { prev_index = some version })
      ≡ true
unfolding set_applied
set-some later version d key l e at = ground arith

-- A write on condition of a version that was seen succeeds only if the key has not changed since:
-- whatever commands the log holds in between, the entry is still the one that was seen. So no
-- change of another node is lost, and a key that was deleted and made again does not pass for the old one.
pub no_lost_update :
    (applied later version : ℕ) (cs : List Command) (d : Store) (key : Text) (l : Lease) (e : Entry)
    → IsDistinct d
    → version ≤ applied
    → (set_applied later key l
        (record no_requirements { prev_index = some version })
        (replay applied cs d)).1
      ≡ some e
    → (seen : Entry) × (lookup key d ≡ some seen)
      × (seen.index ≡ version)
      × (lookup key (replay applied cs d) ≡ some seen)
no_lost_update applied later version cs d key l e h le at =
    let now = replay applied cs d in
    let (seen, there, same) =
      version_seen (lookup key now) version (set-some later version now key l e at) in
    (
      seen,
      replay_origin applied applied cs d key seen (omega arith) h there (omega arith),
      same,
      there,
    )
