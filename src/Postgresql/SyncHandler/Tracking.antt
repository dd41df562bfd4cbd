-- ===== src/Postgresql/SyncHandler/Tracking.antt =====
-- The connections that sync.py remembers as ready: only those whose names PostgreSQL waits for.
use otus_hightload.Postgresql.StandbyNames.Tokens.{parse_empty}
use otus_hightload.Collections.NameDict.{no_entries, setitem, keys, NameDict, has_key, delitem}
use otus_hightload.Prelude.{
  ℕ, true, not, ◌&&◌, ◌||◌, inl, inr, Option, none, some, List, [], ◌∷◌, ◌≡◌, refl, sym, ◌∙◌, arith,
  any, is_some, if◌then◌else◌, Bool-cases, ap,
}
use otus_hightload.Prelude.Text.{Text, lower, text_eq, text_eq_iff, spells}
use otus_hightload.Collections.Entries.{
  put-IsDistinct, lookup, pop, IsDistinct, pop-IsDistinct, lookup-pop,
}
use otus_hightload.Collections.NameSet.{NameSet, contains}
use otus_hightload.Collections.NameSet.Laws.{contains_congruent}
use otus_hightload.Collections.NameDict.Laws.{
  has_key-no_entries, has_key-setitem, spells-keys, has_key-lookup,
}
use otus_hightload.Postgresql.Replicas.{replica_list, Postgres, Replica}
use otus_hightload.Postgresql.SyncHandler.{
  Fields, Cluster, is_caught_up, process_replica_readiness, current_state, flag_ready,
  parse_sync_standby_names, or_empty_ssn, Handler, handle_names_change, new_handler, del,
  keep_listed,
}

removed : Text → NameDict ℕ → NameDict ℕ
removed k d = record { entries = pop (lower k) d.entries }

found_or :
    (o : Option (Text × ℕ)) (r d : NameDict ℕ)
    → elim (elim o as (λ x. Option (NameDict ℕ)) [ none ↦ none | some x ↦ some r ])
        as (λ x. NameDict ℕ) [ none ↦ d | some e ↦ e ]
      ≡ (if is_some o then r else d)
found_or none r d = refl
found_or (some x) r d = refl

del-eq : (d : NameDict ℕ) (k : Text) → del k d ≡ (if has_key d k then removed k d else d)
unfolding del delitem removed
del-eq d k =
    found_or (lookup (lower k) d.entries) (removed k d) d
    ∙ ap (λ b. if b then removed k d else d) (sym (has_key-lookup d k))

has_key-removed :
    (d : NameDict ℕ) (k w : Text)
    → IsDistinct d.entries
    → has_key (removed k d) w ≡ (not (text_eq (lower k) (lower w)) && has_key d w)
unfolding removed
has_key-removed d k w h = ground (
  arith,
  has_key-lookup d w,
  has_key-lookup (removed k d) w,
  lookup-pop (lower k) (lower w) d.entries h,
)

has_key-del :
    (d : NameDict ℕ) (k w : Text)
    → IsDistinct d.entries
    → has_key (del k d) w ≡ (not (text_eq (lower k) (lower w)) && has_key d w)
has_key-del d k w h = rw (del-eq d k) (
    ground (
      arith,
      has_key-removed d k w h,
      has_key-lookup d w,
      has_key-lookup d k,
      text_eq_iff (lower k) (lower w),
    ))

del-IsDistinct : (d : NameDict ℕ) (k : Text) → IsDistinct d.entries → IsDistinct (del k d).entries
unfolding removed
del-IsDistinct d k h = rw (del-eq d k) (elim (Bool-cases (has_key d k)) [
  | inl e ↦ rw e (pop-IsDistinct (lower k) d.entries h)
  | inr e ↦ rw e h
])

-- What is kept is what was there and is listed, or is none of the keys gone through.
has_key-keep_listed :
    (members : NameSet) (ks : List Text) (d : NameDict ℕ) (w : Text)
    → IsDistinct d.entries
    → has_key (keep_listed members ks d) w
      ≡ (has_key d w && (contains members w || not (spells w ks)))
unfolding keep_listed any
has_key-keep_listed members [] d w h = ground arith
has_key-keep_listed members (k ∷ rest) d w h =
    let d' = if contains members k then d else del k d in
    let distinct : IsDistinct d'.entries = elim (Bool-cases (contains members k)) [
      | inl e ↦ rw e h
      | inr e ↦ rw e (del-IsDistinct d k h)
    ] in
    ground (
      arith,
      has_key-keep_listed members rest d' w distinct,
      has_key-del d k w h,
      contains_congruent members k w,
    )

keep_listed-IsDistinct :
    (members : NameSet) (ks : List Text) (d : NameDict ℕ)
    → IsDistinct d.entries
    → IsDistinct (keep_listed members ks d).entries
unfolding keep_listed
keep_listed-IsDistinct members [] d h = h
keep_listed-IsDistinct members (k ∷ rest) d h =
    keep_listed-IsDistinct members rest (if contains members k then d else del k d)
      (elim (Bool-cases (contains members k)) [
        | inl e ↦ rw e h
        | inr e ↦ rw e (del-IsDistinct d k h)
      ])

-- What the handler holds between calls: its parsed names are those of its text, and each ready
-- connection is one of them.
pub record IsTracked (h : Handler) : Type 0 where
  pub parsed : h.ssn_data ≡ or_empty_ssn (parse_sync_standby_names h.synchronous_standby_names)
  pub distinct : IsDistinct h.ready_replicas.entries
  pub listed : (w : Text) → has_key h.ready_replicas w ≡ true → contains h.ssn_data.members w ≡ true

pub new_handler-IsTracked : IsTracked new_handler
unfolding new_handler or_empty_ssn
new_handler-IsTracked = record {
  parsed = ap or_empty_ssn (sym parse_empty);
  distinct = unfold no_entries in tt;
  listed = λ w at. absurd (ground (arith, has_key-no_entries ℕ w));
}

handle_names_change-IsTracked :
    (pg : Postgres) (h : Handler) → IsTracked h → IsTracked (handle_names_change pg h)
unfolding handle_names_change
handle_names_change-IsTracked pg h t =
    elim (Bool-cases (text_eq pg.synchronous_standby_names h.synchronous_standby_names)) [
      | inl e ↦ rw e t
      | inr e ↦ rw e (record {
        parsed = refl;
        distinct = keep_listed-IsDistinct _ (keys h.ready_replicas) h.ready_replicas t.distinct;
        listed = λ w at.
            let ssn = or_empty_ssn (parse_sync_standby_names pg.synchronous_standby_names) in
            ground (
              arith,
              has_key-keep_listed ssn.members (keys h.ready_replicas) h.ready_replicas w t.distinct,
              spells-keys h.ready_replicas w,
            );
      })
    ]

-- Flagging adds only names that are listed.
flag_ready-listed :
    (h : Handler) (cluster : Cluster) (d : NameDict ℕ) (rs : List Replica)
    → ((w : Text) → has_key d w ≡ true → contains h.ssn_data.members w ≡ true)
    → (w : Text) → has_key (flag_ready h cluster d rs) w ≡ true
    → contains h.ssn_data.members w ≡ true
unfolding flag_ready is_caught_up
flag_ready-listed h cluster d [] sub = sub
flag_ready-listed h cluster d (r ∷ rest) sub =
    let d' = if is_caught_up h cluster d r then setitem r.application_name r.pid d else d in
    flag_ready-listed h cluster d' rest λ w at. ground (
      arith,
      sub w,
      has_key-setitem d r.application_name w r.pid,
      contains_congruent h.ssn_data.members r.application_name w,
    )

flag_ready-IsDistinct :
    (h : Handler) (cluster : Cluster) (d : NameDict ℕ) (rs : List Replica)
    → IsDistinct d.entries
    → IsDistinct (flag_ready h cluster d rs).entries
unfolding flag_ready setitem
flag_ready-IsDistinct h cluster d [] t = t
flag_ready-IsDistinct h cluster d (r ∷ rest) t =
    let put' = put-IsDistinct (lower r.application_name) (r.application_name, r.pid) d.entries t in
    flag_ready-IsDistinct h cluster
      (if is_caught_up h cluster d r then setitem r.application_name r.pid d else d) rest
      (elim (Bool-cases (is_caught_up h cluster d r)) [ inl e ↦ rw e put' | inr e ↦ rw e t ])

-- What the handler holds stays right over every call of `current_state`.
pub current_state-IsTracked :
    (config : Fields) (pg : Postgres) (cluster : Cluster) (h : Handler)
    → IsTracked h
    → IsTracked (current_state config pg cluster h).0
unfolding current_state process_replica_readiness
current_state-IsTracked config pg cluster h t =
    let h' = handle_names_change pg h in
    let t' = handle_names_change-IsTracked pg h t in
    let rs = replica_list pg cluster in
    record {
      parsed = t'.parsed;
      distinct = flag_ready-IsDistinct h' cluster h'.ready_replicas rs t'.distinct;
      listed = flag_ready-listed h' cluster h'.ready_replicas rs t'.listed;
    }

pub names-current_state :
    (config : Fields) (pg : Postgres) (cluster : Cluster) (h : Handler)
    → (current_state config pg cluster h).0.synchronous_standby_names ≡ pg.synchronous_standby_names
unfolding current_state process_replica_readiness handle_names_change
names-current_state config pg cluster h =
    ground (arith, text_eq_iff pg.synchronous_standby_names h.synchronous_standby_names)
