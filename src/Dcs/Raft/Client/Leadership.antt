-- ===== src/Dcs/Raft/Client/Leadership.antt =====
-- The leader key of .patroni/patroni/dcs/raft.py, as the node that asks for it sees it.
use otus_hightload.Prelude.{
  ℕ, ◌+◌, ◌≤◌, Bool, true, false, ◌⊎◌, inl, inr, Option, none, some, ◌≡◌, refl, ◌∙◌, arith, is_some,
  Bool-cases,
}
use otus_hightload.Prelude.Text.{Text, text_eq_iff, text_eq_refl}
use otus_hightload.Collections.Entries.{lookup, lookup-put}
use otus_hightload.Dcs.Raft.{
  same_Bool, exist_ok, value_ok, Lease, Entry, Store, Requirements, no_requirements,
  check_requirements, settle, set_applied, set_submits, expires_at,
}
use otus_hightload.Dcs.Raft.Client.{
  Applied, applied_to, times_out, is_denied, SetResult, stores, raises, fails, set, set_found,
  set_submitted, set_answer, is_stored, renewed, Client, Call, attempt_to_acquire_leader,
  update_leader, acquire_call, renew_call,
}

-- The command of a call has been applied to a dictionary that met its condition, and has put the
-- value there until the time to live is over.
abbrev pub IsStored : ℕ → Text → Text → ℕ → Requirements → Applied → Entry → Type 0
IsStored now key value ttl r answer e =
    (n : ℕ) × (d : Store) × (l : Lease) × (answer ≡ applied_to n d)
    × (check_requirements (lookup key d) r ≡ true)
    × (lookup key (set_applied n key l r d).0 ≡ some e)
    × (e.lease.value ≡ value)
    × (e.lease.expire ≡ some (now + ttl))

settle_keeps :
    (o : Option Entry) (l : Lease)
    → ((settle o l).value ≡ l.value) × ((settle o l).expire ≡ l.expire)
unfolding settle
settle_keeps none l = (refl, refl)
settle_keeps (some old) l = ground arith

applied_stored :
    (n : ℕ) (key : Text) (l : Lease) (r : Requirements) (d : Store) (e : Entry)
    → (set_applied n key l r d).1 ≡ some e
    → (check_requirements (lookup key d) r ≡ true)
      × (lookup key (set_applied n key l r d).0 ≡ some e)
      × (e.lease.value ≡ l.value)
      × (e.lease.expire ≡ l.expire)
unfolding set_applied
applied_stored n key l r d e h =
    let new : Entry = record { lease = settle (lookup key d) l; index = n + 1 } in
    ground (arith, lookup-put key key new d, text_eq_refl key, settle_keeps (lookup key d) l)

submitted_stored :
    (handles : Bool) (key : Text) (l : Lease) (r : Requirements) (answer : Applied) (e : Entry)
    → set_submitted handles key l r answer ≡ stores e
    → (n : ℕ) × (d : Store) × (answer ≡ applied_to n d) × ((set_applied n key l r d).1 ≡ some e)
unfolding set_submitted set_answer
submitted_stored handles key l r times_out e h = ground arith
submitted_stored handles key l r is_denied e h = ground arith
submitted_stored handles key l r (applied_to n d) e h = (n, d, refl, ground arith)

submits_expire :
    (now : ℕ) (key value : Text) (ttl : ℕ) (r : Requirements) (local : Store) (l : Lease)
    → 1 ≤ ttl
    → set_submits now key value (some ttl) r local ≡ some l
    → (l.value ≡ value) × (l.expire ≡ some (now + ttl))
unfolding set_submits expires_at
submits_expire now key value ttl r local l ok h = ground arith

found-IsStored :
    (now ttl : ℕ) (key value : Text) (handles : Bool) (r : Requirements) (answer : Applied)
    (e : Entry) (o : Option Lease)
    → ((l : Lease) → o ≡ some l → (l.value ≡ value) × (l.expire ≡ some (now + ttl)))
    → set_found handles key r answer o ≡ stores e
    → IsStored now key value ttl r answer e
unfolding set_found
found-IsStored now ttl key value handles r answer e none sub h = ground arith
found-IsStored now ttl key value handles r answer e (some l) sub h =
    let (n, d, at, made) = submitted_stored handles key l r answer e h in
    let (met, there, same, ends) = applied_stored n key l r d e made in
    let (v, x) = sub l refl in (n, d, l, at, met, there, same ∙ v, ends ∙ x)

set-IsStored :
    (now : ℕ) (key value : Text) (ttl : ℕ) (handles : Bool) (r : Requirements) (local : Store)
    (answer : Applied) (e : Entry)
    → 1 ≤ ttl
    → set now key value (some ttl) handles r local answer ≡ stores e
    → IsStored now key value ttl r answer e
unfolding set
set-IsStored now key value ttl handles r local answer e ok h =
    found-IsStored now ttl key value handles r answer e
      (set_submits now key value (some ttl) r local)
      (λ l. submits_expire now key value ttl r local l ok) h

stored_entry : (s : SetResult) → is_stored s ≡ some true → (e : Entry) × (s ≡ stores e)
unfolding is_stored
stored_entry raises h = ground arith
stored_entry fails h = ground arith
stored_entry (stores e) h = (e, refl)

abbrev pub IsFreeOrOurs : Client → Option Entry → Type 0
IsFreeOrOurs c o = (o ≡ none) ⊎ ((e : Entry) × (o ≡ some e) × (e.lease.value ≡ c.name))

-- The call has stored the entry `e`: its command was applied to a dictionary in which the leader key was
-- free, or the node's own, the entry is what stands at the key then, and it has the node's name,
-- until the time to live is over.
abbrev pub Leads : Client → Call → SetResult → Type 0
Leads c k s =
    (e : Entry) × (n : ℕ) × (d : Store) × (l : Lease) × (r : Requirements) × (s ≡ stores e)
    × (k.answer ≡ applied_to n d)
    × IsFreeOrOurs c (lookup c.leader_path d)
    × (lookup c.leader_path (set_applied n c.leader_path l r d).0 ≡ some e)
    × (e.lease.value ≡ c.name)
    × (e.lease.expire ≡ some (k.now + c.ttl))

leads :
    (c : Client) (k : Call) (r : Requirements)
    → 1 ≤ c.ttl
    → ((o : Option Entry) → check_requirements o r ≡ true → IsFreeOrOurs c o)
    → is_stored (set k.now c.leader_path c.name (some c.ttl) false r k.local k.answer) ≡ some true
    → Leads c k (set k.now c.leader_path c.name (some c.ttl) false r k.local k.answer)
leads c k r ok met h =
    let s = set k.now c.leader_path c.name (some c.ttl) false r k.local k.answer in
    let (e, at) = stored_entry s h in
    let (n, d, l, answer, passed, there, v, x) =
      set-IsStored k.now c.leader_path c.name c.ttl false r k.local k.answer e ok at in
    (e, n, d, l, r, at, answer, met (lookup c.leader_path d) passed, there, v, x)

acquire_met :
    (c : Client) (o : Option Entry)
    → check_requirements o (record no_requirements { prev_exist = some false }) ≡ true
    → IsFreeOrOurs c o
unfolding check_requirements exist_ok same_Bool
acquire_met c none h = inl refl
acquire_met c (some e) h = ground arith

renew_met :
    (c : Client) (o : Option Entry)
    → check_requirements o (record no_requirements { prev_value = some c.name }) ≡ true
    → IsFreeOrOurs c o
unfolding check_requirements value_ok
renew_met c none h = inl refl
renew_met c (some e) h = inr (e, refl, ground (arith, text_eq_iff e.lease.value c.name))

acquire-Leads :
    (c : Client) (k : Call)
    → 1 ≤ c.ttl
    → attempt_to_acquire_leader c k ≡ some true
    → Leads c k (acquire_call c k)
unfolding attempt_to_acquire_leader acquire_call
acquire-Leads c k ok h =
    leads c k (record no_requirements { prev_exist = some false }) ok (acquire_met c) h

renew-Leads :
    (c : Client) (k : Call)
    → 1 ≤ c.ttl
    → is_stored (renew_call c k) ≡ some true
    → Leads c k (renew_call c k)
unfolding renew_call
renew-Leads c k ok h =
    leads c k (record no_requirements { prev_value = some c.name }) ok (renew_met c) h

renewed-Leads :
    (c : Client) (k again : Call) (o : Option Bool)
    → 1 ≤ c.ttl
    → (o ≡ some true → Leads c k (renew_call c k))
    → renewed c again o ≡ some true
    → Leads c k (renew_call c k) ⊎ Leads c again (acquire_call c again)
unfolding renewed
renewed-Leads c k again none ok first h = absurd (cc h)
renewed-Leads c k again (some true) ok first h = inl (first refl)
renewed-Leads c k again (some false) ok first h =
    elim (Bool-cases (is_some (lookup c.leader_path again.local))) [
      | inl there ↦ absurd (ground arith)
      | inr free ↦ inr (acquire-Leads c again ok (ground arith))
    ]

-- A node whose update_leader answers True, with a time to live of at least 1, holds the leader key: the
-- entry that one of its two calls has stored was put there while the key was free or its own, has
-- its name, and lasts until the time to live is over, counted from the time of the call.
pub update_leader_lem :
    (c : Client) (k again : Call)
    → 1 ≤ c.ttl
    → update_leader c k again ≡ some true
    → Leads c k (renew_call c k) ⊎ Leads c again (acquire_call c again)
unfolding update_leader
update_leader_lem c k again ok h =
    renewed-Leads c k again (is_stored (renew_call c k)) ok (renew-Leads c k ok) h
