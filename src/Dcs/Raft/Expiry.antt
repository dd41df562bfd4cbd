-- ===== src/Dcs/Raft/Expiry.antt =====
-- `__expire_keys` of .patroni/patroni/dcs/raft.py: the leader of the Raft cluster asks for the
-- deletion of the keys whose lease has ended, and notes in `__limb` for what it has asked. A pass
-- over the dictionary reads the clock once.
use otus_hightload.Prelude.{
  suc, ℕ, zero, suc, ◌+◌, leb, Bool, true, false, not, ◌&&◌, Option, none, some, List, [], ◌∷◌, ◌≡◌,
  refl, arith, if◌then◌else◌, ◌∙◌, ap,
}
use otus_hightload.Prelude.Text.{Text, text_eq, text_eq_iff, text_eq_refl}
use otus_hightload.Collections.Entries.{
  Entries, lookup, put, pop, IsDistinct, lookup-put, lookup-pop,
}
use otus_hightload.Dcs.Raft.{
  Lease, Entry, Store, values_match, same_expire, expire_applied, expire_found, Command, expires,
  apply, replay,
}
use otus_hightload.Dcs.Raft.Versions.{apply-IsDistinct}

ended : Option ℕ → ℕ → Bool
ended none now = false
ended (some t) now = leb t now

unfoldable pub is_due : ℕ → Lease → Bool
unfolding ended
is_due now l = ended l.expire now

noted : Option Lease → Lease → Bool
noted none l = false
noted (some asked) l = values_match asked l

unfoldable pub in_limb : Text → Lease → Entries Lease → Bool
unfolding noted
in_limb key l limb = noted (lookup key limb) l

-- `__expire_keys`: the calls of `_expire`, and the new `__limb`
unfoldable pub expire_keys : ℕ → Store → Entries Lease → Entries Lease × Entries Lease
expire_keys now [] limb = ([], limb)
expire_keys now ((key, e) ∷ d) limb =
    let asks = is_due now e.lease && not (in_limb key e.lease limb) in
    let rest = expire_keys now d (if asks then put key e.lease limb else limb) in
    if asks then ((key, e.lease) ∷ rest.0, rest.1) else rest

-- The `callback` of each call of `_expire` runs when the loop is over, and reads the loop's
-- variables then: the last key of the dictionary, and its value.
unfoldable pub last_item : Store → Option (Text × Lease)
last_item [] = none
last_item ((key, e) ∷ []) = some (key, e.lease)
last_item (x ∷ y ∷ d) = last_item (y ∷ d)

clear_item : Option (Text × Lease) → Entries Lease → Entries Lease
clear_item none limb = limb
clear_item (some (key, l)) limb = if in_limb key l limb then pop key limb else limb

unfoldable pub called_back : Store → Entries Lease → Entries Lease
unfolding clear_item
called_back d limb = clear_item (last_item d) limb

unfoldable pub callbacks : ℕ → Store → Entries Lease → Entries Lease
callbacks zero d limb = limb
callbacks (suc n) d limb = callbacks n d (called_back d limb)

-- What the leader asks for a key, given its entry.
abbrev asked_for : ℕ → Text → Entries Lease → Option Entry → Option Lease
asked_for now key limb none = none
asked_for now key limb (some e) =
    if is_due now e.lease && not (in_limb key e.lease limb) then some e.lease else none

in_limb-put :
    (key k : Text) (l m : Lease) (limb : Entries Lease) (asks : Bool)
    → text_eq k key ≡ false
    → in_limb key l (if asks then put k m limb else limb) ≡ in_limb key l limb
unfolding in_limb
in_limb-put key k l m limb true other = rw (lookup-put k key m limb, other) refl
in_limb-put key k l m limb false other = refl

asked_for-put :
    (now : ℕ) (key k : Text) (m : Lease) (limb : Entries Lease) (asks : Bool) (o : Option Entry)
    → text_eq k key ≡ false
    → asked_for now key (if asks then put k m limb else limb) o ≡ asked_for now key limb o
asked_for-put now key k m limb asks none other = refl
asked_for-put now key k m limb asks (some e) other =
    rw (in_limb-put key k e.lease m limb asks other) refl

-- The leader asks for the deletion of exactly the keys whose lease has ended and for which
-- it has not asked yet, each under the lease that has ended.
pub expire_keys_lem :
    (now : ℕ) (d : Store) (limb : Entries Lease) (key : Text)
    → IsDistinct d
    → lookup key (expire_keys now d limb).0 ≡ asked_for now key limb (lookup key d)
unfolding expire_keys lookup in_limb
expire_keys_lem now [] limb key h = refl
expire_keys_lem now ((k, e) ∷ d) limb key h =
    let asks = is_due now e.lease && not (in_limb k e.lease limb) in
    let ih = expire_keys_lem now d (if asks then put k e.lease limb else limb) key h.1 in
    ground (arith, ih, asked_for-put now key k e.lease limb asks (lookup key d), text_eq_iff k key)

asks_IsDistinct :
    (now : ℕ) (d : Store) (limb : Entries Lease)
    → IsDistinct d
    → IsDistinct (expire_keys now d limb).0
unfolding expire_keys
asks_IsDistinct now [] limb h = tt
asks_IsDistinct now ((k, e) ∷ d) limb h =
    let limb' =
      if is_due now e.lease && not (in_limb k e.lease limb) then put k e.lease limb else limb in
    ground (arith, asks_IsDistinct now d limb' h.1, expire_keys_lem now d limb' k h.1)

-- the replicated calls
unfoldable pub asks_log : Entries Lease → List Command
asks_log [] = []
asks_log ((key, l) ∷ asks) = expires key l ∷ asks_log asks

abbrev left : Option Lease → Option Entry → Option Entry
left none o = o
left (some l) none = none
left (some l) (some e) = if values_match e.lease l then none else some e

lookup-expire_applied :
    (k key : Text) (l : Lease) (d : Store)
    → IsDistinct d
    → lookup key (expire_applied k l d)
      ≡ (if text_eq k key then left (some l) (lookup key d) else lookup key d)
unfolding expire_applied expire_found
lookup-expire_applied k key l d h = ground (arith, lookup-pop k key d h, text_eq_iff k key)

lookup-asks_log :
    (applied : ℕ) (asks : Entries Lease) (d : Store) (key : Text)
    → IsDistinct asks
    → IsDistinct d
    → lookup key (replay applied (asks_log asks) d) ≡ left (lookup key asks) (lookup key d)
unfolding replay asks_log lookup apply
lookup-asks_log applied [] d key ha h = refl
lookup-asks_log applied ((k, l) ∷ asks) d key ha h =
    let ih =
      lookup-asks_log (applied + 1) asks (expire_applied k l d) key ha.1
        (apply-IsDistinct applied (expires k l) d h) in
    ground (arith, ih, lookup-expire_applied k key l d h, text_eq_iff k key)

values_match_refl : (l : Lease) → values_match l l ≡ true
unfolding values_match same_expire
values_match_refl l = ground (arith, text_eq_refl l.value)

-- What is left of an entry when the ended leases are gone.
abbrev pub living : ℕ → Option Entry → Option Entry
living now none = none
living now (some e) = if is_due now e.lease then none else some e

living_lem :
    (now : ℕ) (key : Text) (o : Option Entry) → left (asked_for now key [] o) o ≡ living now o
unfolding in_limb lookup
living_lem now key none = refl
living_lem now key (some e) = ground (arith, values_match_refl e.lease)

-- Once the log has the calls of a pass that began with nothing asked, every key whose lease had
-- ended is gone, and every other entry of the dictionary is as it was.
pub ended_leave :
    (applied now : ℕ) (d : Store) (key : Text)
    → IsDistinct d
    → lookup key (replay applied (asks_log (expire_keys now d []).0) d) ≡ living now (lookup key d)
ended_leave applied now d key h =
    lookup-asks_log applied (expire_keys now d []).0 d key (asks_IsDistinct now d [] h) h
    ∙ ap (λ o. left o (lookup key d)) (expire_keys_lem now d [] key h)
    ∙ living_lem now key (lookup key d)

lookup-pop_other :
    (k key : Text) (limb : Entries Lease)
    → text_eq k key ≡ false
    → lookup key (pop k limb) ≡ lookup key limb
unfolding lookup pop
lookup-pop_other k key [] h = refl
lookup-pop_other k key ((j, l) ∷ limb) h =
    ground (arith, lookup-pop_other k key limb h, text_eq_iff j k)

lookup-limb :
    (now : ℕ) (d : Store) (limb : Entries Lease) (key : Text)
    → lookup key d ≡ none
    → lookup key (expire_keys now d limb).1 ≡ lookup key limb
unfolding expire_keys lookup
lookup-limb now [] limb key h = refl
lookup-limb now ((k, e) ∷ d) limb key h =
    let limb' =
      if is_due now e.lease && not (in_limb k e.lease limb) then put k e.lease limb else limb in
    ground (arith, lookup-limb now d limb' key, lookup-put k key e.lease limb)

limb_notes :
    (now : ℕ) (d : Store) (limb : Entries Lease) (key : Text) (e : Entry)
    → IsDistinct d
    → lookup key d ≡ some e
    → is_due now e.lease ≡ true
    → in_limb key e.lease (expire_keys now d limb).1 ≡ true
unfolding expire_keys lookup in_limb
limb_notes now [] limb key e h at due = ground arith
limb_notes now ((k, f) ∷ d) limb key e h at due =
    let limb' =
      if is_due now f.lease && not (in_limb k f.lease limb) then put k f.lease limb else limb in
    ground (
      arith,
      lookup-limb now d limb' key,
      lookup-put k key f.lease limb,
      limb_notes now d limb' key e h.1,
      values_match_refl e.lease,
      text_eq_iff k key,
    )

callbacks_keep :
    (n : ℕ) (d : Store) (limb : Entries Lease) (last : Text) (m : Lease) (key : Text)
    → last_item d ≡ some (last, m)
    → text_eq last key ≡ false
    → lookup key (callbacks n d limb) ≡ lookup key limb
unfolding callbacks called_back clear_item
callbacks_keep zero d limb last m key at other = refl
callbacks_keep (suc n) d limb last m key at other =
    callbacks_keep n d (called_back d limb) last m key at other
    ∙ rw at (ground (arith, lookup-pop_other last key limb other))

-- A key whose lease has ended, and that is not the last of the dictionary, is asked for once: when
-- every callback of the pass has run, whatever the calls came to, and the entry is still there,
-- later passes do not ask for its deletion.
pub asked_once :
    (n now later : ℕ) (d : Store) (limb : Entries Lease) (last : Text) (m : Lease) (key : Text)
    (e : Entry)
    → IsDistinct d
    → lookup key d ≡ some e
    → is_due now e.lease ≡ true
    → last_item d ≡ some (last, m)
    → text_eq last key ≡ false
    → lookup key (expire_keys later d (callbacks n d (expire_keys now d limb).1)).0 ≡ none
unfolding in_limb
asked_once n now later d limb last m key e h at due end other =
    let inside = limb_notes now d limb key e h at due in
    expire_keys_lem later d (callbacks n d (expire_keys now d limb).1) key h
    ∙ rw (at, callbacks_keep n d (expire_keys now d limb).1 last m key end other)
        (ground (arith, inside))
