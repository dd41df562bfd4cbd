-- ===== src/Postgresql/SyncHandler/Sources.antt =====
-- Where the candidates of sync.py come from: connected replicas of members that may be synchronous.
use otus_hightload.Prelude.{
  sym, ap, Bool, true, false, not, ◌&&◌, ◌⊎◌, inl, inr, Option, none, some, List, [], ◌∷◌, ◌++◌,
  ◌≡◌, refl, arith, if◌then◌else◌, Bool-cases, Memᴰ, select, mem-select,
}
use otus_hightload.Prelude.Int.{ℤ, pos, ltb_ℤ}
use otus_hightload.Prelude.Text.{Text, lower, text_eq, codes}
use otus_hightload.Tags.{nosync}
use otus_hightload.Dcs.Cluster.{Member, is_running, member_tags, Cluster}
use otus_hightload.Collections.NameSet.{NameSet, add, contains, size, empty}
use otus_hightload.Collections.NameSet.Laws.{contains-add, contains-empty}
use otus_hightload.Collections.NameDict.{NameDict, getitem, has_key, from_entries}
use otus_hightload.Postgresql.SyncHandler.{
  limits, promotable_first, current_state, Handler, Limits, is_near, pick,
}
use otus_hightload.Py.{Fields}
use otus_hightload.Postgresql.Replicas.{
  Postgres, replica_list, members_by_name, collect, comes_after, Replica, Row, replica_of, insert,
  sort_replicas, sort_column,
}

source_later :
    (r : Replica) (rest : List Replica) (c : NameSet) (near : Bool) (w : Text)
    → (contains (if near then add r.application_name c else c) w ≡ true)
      ⊎ ((x : Replica) × Memᴰ x rest × (text_eq (lower x.application_name) (lower w) ≡ true))
    → (contains c w ≡ true)
      ⊎ ((x : Replica) × Memᴰ x (r ∷ rest) × (text_eq (lower x.application_name) (lower w) ≡ true))
source_later r rest c near w (inr (x, m, e)) = inr (x, Memᴰ.tail m, e)
source_later r rest c near w (inl at) =
    elim (Bool-cases (text_eq (lower r.application_name) (lower w))) [
      | inl e ↦ inr (r, Memᴰ.head refl, e)
      | inr e ↦ inl (ground (arith, contains-add c r.application_name w))
    ]

-- A candidate that was not there before is the name of one of the replicas.
pick_source :
    (l : Limits) (c s : NameSet) (rs : List Replica) (w : Text)
    → contains (pick l c s rs).0 w ≡ true
    → (contains c w ≡ true)
      ⊎ ((r : Replica) × Memᴰ r rs × (text_eq (lower r.application_name) (lower w) ≡ true))
unfolding pick
pick_source l c s [] w at = inl at
pick_source l c s (r ∷ rest) w at =
    let near = is_near l.maxlag l.newest r in
    let synced =
      near && text_eq r.sync_state (codes "sync") && has_key l.ready r.application_name in
    let c' = if near then add r.application_name c else c in
    let s' = if synced then add r.application_name s else s in
    elim (Bool-cases (ltb_ℤ (pos (size c')) l.node_count)) [
      | inl e ↦ source_later r rest c near w (pick_source l c' s' rest w (rw e at at))
      | inr e ↦ source_later r rest c near w (inl (rw e at at))
    ]

mem_append : {r : Replica} (xs ys : List Replica) → Memᴰ r (xs ++ ys) → Memᴰ r xs ⊎ Memᴰ r ys
mem_append [] ys m = inr m
mem_append (x ∷ xs) ys (Memᴰ.head e) = inl (Memᴰ.head e)
mem_append (x ∷ xs) ys (Memᴰ.tail m) = elim (mem_append xs ys m) [
  | inl n ↦ inl (Memᴰ.tail n)
  | inr n ↦ inr n
]

mem-promotable_first : {r : Replica} (rs : List Replica) → Memᴰ r (promotable_first rs) → Memᴰ r rs
unfolding promotable_first
mem-promotable_first rs m = elim (mem_append (select (λ (r : Replica). not r.nofailover) rs) _ m) [
  | inl n ↦ (mem-select (λ (r : Replica). not r.nofailover) rs n).0
  | inr n ↦ (mem-select (λ (r : Replica). r.nofailover) rs n).0
]

mem-if :
    {r : Replica} (b : Bool) (xs ys zs : List Replica)
    → (Memᴰ r xs → Memᴰ r zs)
    → (Memᴰ r ys → Memᴰ r zs)
    → Memᴰ r (if b then xs else ys)
    → Memᴰ r zs
mem-if true xs ys zs f g m = f m
mem-if false xs ys zs f g m = g m

mem_cons : {r x : Replica} {rs : List Replica} → Memᴰ r (x ∷ rs) → (r ≡ x) ⊎ Memᴰ r rs
mem_cons (Memᴰ.head e) = inl e
mem_cons (Memᴰ.tail m) = inr m

mem-insert :
    {r : Replica} (x : Replica) (rs : List Replica) → Memᴰ r (insert x rs) → Memᴰ r (x ∷ rs)
unfolding insert
mem-insert x [] m = m
mem-insert {r} x (y ∷ rs) m =
    mem-if (comes_after x y) (y ∷ insert x rs) (x ∷ y ∷ rs) (x ∷ y ∷ rs)
      (λ n. elim (mem_cons n) [
        | inl e ↦ Memᴰ.tail (Memᴰ.head e)
        | inr k ↦ elim (mem_cons (mem-insert x rs k)) [
          | inl e ↦ Memᴰ.head e
          | inr j ↦ Memᴰ.tail (Memᴰ.tail j)
        ]
      ])
      (λ n. n) m

mem-sort_replicas : {r : Replica} (rs : List Replica) → Memᴰ r (sort_replicas rs) → Memᴰ r rs
unfolding sort_replicas
mem-sort_replicas [] m = m
mem-sort_replicas (x ∷ rs) m = elim (mem_cons (mem-insert x (sort_replicas rs) m)) [
  | inl e ↦ Memᴰ.head e
  | inr n ↦ Memᴰ.tail (mem-sort_replicas rs n)
]

-- The row and the member that a replica stands for.
pub record IsFrom (members : NameDict Member) (commit : Text) (rows : List Row) (r : Replica)
    : Type 0 where
  pub row : Row
  pub listed : Memᴰ row rows
  pub named : r.application_name ≡ row.application_name
  pub streams : sort_column commit row ≡ some r.lsn
  pub member : Member
  pub known : getitem members row.application_name ≡ some member
  pub running : is_running member ≡ true
  pub may_sync : nosync (member_tags member) ≡ false

replica_of_source :
    (members : NameDict Member) (commit : Text) (row : Row) (rows : List Row) (mo : Option Member)
    (lo : Option ℤ) (r : Replica)
    → Memᴰ row rows
    → getitem members row.application_name ≡ mo
    → sort_column commit row ≡ lo
    → replica_of mo lo row ≡ some r
    → IsFrom members commit rows r
unfolding replica_of
replica_of_source members commit row rows none lo r l k c e = absurd (ground arith)
replica_of_source members commit row rows (some m) none r l k c e = absurd (ground arith)
replica_of_source members commit row rows (some m) (some n) r l k c e = record {
  row = row;
  listed = l;
  named = ground arith;
  streams = ground arith;
  member = m;
  known = k;
  running = ground arith;
  may_sync = ground arith;
}

later_row :
    {members : NameDict Member} {commit : Text} {rows : List Row} {r : Replica} (row : Row)
    → IsFrom members commit rows r
    → IsFrom members commit (row ∷ rows) r
later_row row f = record {
  row = f.row;
  listed = Memᴰ.tail f.listed;
  named = f.named;
  streams = f.streams;
  member = f.member;
  known = f.known;
  running = f.running;
  may_sync = f.may_sync;
}

mem_found :
    {r : Replica} (o : Option Replica) (later : List Replica)
    → Memᴰ r (elim o as (λ x. List Replica) [ none ↦ later | some x ↦ x ∷ later ])
    → (o ≡ some r) ⊎ Memᴰ r later
mem_found none later m = inr m
mem_found (some x) later (Memᴰ.head e) = inl (ap some (sym e))
mem_found (some x) later (Memᴰ.tail m) = inr m

collect-IsFrom :
    (members : NameDict Member) (commit : Text) (rows : List Row) {r : Replica}
    → Memᴰ r (collect members commit rows)
    → IsFrom members commit rows r
unfolding collect
collect-IsFrom members commit [] m = elim m [ ]
collect-IsFrom members commit (row ∷ rows) {r} m =
    let mo = getitem members row.application_name in
    let lo = sort_column commit row in
    elim (mem_found (replica_of mo lo row) (collect members commit rows) m) [
      | inl e ↦
          replica_of_source members commit row (row ∷ rows) mo lo r (Memᴰ.head refl) refl refl e
      | inr n ↦ later_row row (collect-IsFrom members commit rows n)
    ]

-- Every replica that is chosen from stands for a row and a member.
pub replica_list-IsFrom :
    (pg : Postgres) (cluster : Cluster) {r : Replica}
    → Memᴰ r (promotable_first (replica_list pg cluster))
    → IsFrom
        (from_entries (members_by_name cluster.members))
        pg.synchronous_commit
        pg.stat_replication
        r
unfolding replica_list
replica_list-IsFrom pg cluster m =
    collect-IsFrom _ _ _ (mem-sort_replicas _ (mem-promotable_first (replica_list pg cluster) m))

-- Every candidate of `current_state` is the name of a connected replica that streams, in the
-- column that `synchronous_commit` asks for, and whose member is known, running and not tagged `nosync`.
pub candidate_source :
    (config : Fields) (pg : Postgres) (cluster : Cluster) (h : Handler) (w : Text)
    → contains (current_state config pg cluster h).1 w ≡ true
    → (r : Replica) × (text_eq (lower r.application_name) (lower w) ≡ true)
      × IsFrom
          (from_entries (members_by_name cluster.members))
          pg.synchronous_commit
          pg.stat_replication
          r
unfolding current_state limits
candidate_source config pg cluster h w at =
    let h' = (current_state config pg cluster h).0 in
    let rs = replica_list pg cluster in
    elim (pick_source (limits config pg rs h') empty empty (promotable_first rs) w at) [
      | inl e ↦ absurd (ground (arith, contains-empty w))
      | inr (r, m, e) ↦ (r, e, replica_list-IsFrom pg cluster m)
    ]
