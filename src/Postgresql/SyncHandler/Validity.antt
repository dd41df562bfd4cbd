-- ===== src/Postgresql/SyncHandler/Validity.antt =====
-- The two sets that `current_state` of sync.py returns are valid, and hold names of the replicas.
use otus_hightload.Prelude.{
  Bool, true, false, ◌&&◌, List, [], ◌∷◌, ◌≡◌, refl, arith, all, if◌then◌else◌, all-mem, all_of_mem,
}
use otus_hightload.Prelude.Int.{pos, ltb_ℤ}
use otus_hightload.Prelude.Text.{Text, text_eq, codes}
use otus_hightload.Py.{Fields}
use otus_hightload.Dcs.Cluster.{Cluster}
use otus_hightload.Collections.NameSet.{NameSet, empty, add, size, values}
use otus_hightload.Collections.NameSet.Laws.{IsValid, add-IsValid, empty-IsValid, all-values-add}
use otus_hightload.Collections.NameDict.{has_key}
use otus_hightload.Postgresql.Replicas.{Postgres, Replica, Row, replica_list}
use otus_hightload.Postgresql.SyncHandler.{
  Handler, Limits, is_near, pick, limits, promotable_first, current_state,
}
use otus_hightload.Postgresql.SyncHandler.Sources.{replica_list-IsFrom}

-- a valid set all of whose names pass a test
abbrev pub Holds : (Text → Bool) → NameSet → Type 0
Holds p s = IsValid s × (all p (values s) ≡ true)

Holds-add :
    (p : Text → Bool) (b : Bool) (v : Text) (s : NameSet)
    → p v ≡ true
    → Holds p s
    → Holds p (if b then add v s else s)
Holds-add p true v s e h = (add-IsValid v s h.0, all-values-add p v s e h.1)
Holds-add p false v s e h = h

Holds-if :
    (p : Text → Bool) (b : Bool) (x y : NameSet × NameSet)
    → (Holds p x.0) × (Holds p x.1)
    → (Holds p y.0) × (Holds p y.1)
    → (Holds p (if b then x else y).0) × (Holds p (if b then x else y).1)
Holds-if p true x y hx hy = hx
Holds-if p false x y hx hy = hy

Holds-pick :
    (p : Text → Bool) (l : Limits) (c s : NameSet) (rs : List Replica)
    → all (λ (r : Replica). p r.application_name) rs ≡ true
    → Holds p c
    → Holds p s
    → (Holds p (pick l c s rs).0) × (Holds p (pick l c s rs).1)
unfolding pick all
Holds-pick p l c s [] e hc hs = (hc, hs)
Holds-pick p l c s (r ∷ rest) e hc hs =
    let near = is_near l.maxlag l.newest r in
    let synced =
      near && text_eq r.sync_state (codes "sync") && has_key l.ready r.application_name in
    let c' = if near then add r.application_name c else c in
    let s' = if synced then add r.application_name s else s in
    let hc' = Holds-add p near r.application_name c (ground arith) hc in
    let hs' = Holds-add p synced r.application_name s (ground arith) hs in
    Holds-if p (ltb_ℤ (pos (size c')) l.node_count) (pick l c' s' rest) (c', s')
      (Holds-pick p l c' s' rest (ground arith) hc' hs') (hc', hs')

Holds-empty : (p : Text → Bool) → Holds p empty
Holds-empty p = (empty-IsValid, unfold all values empty in refl)

-- Both sets are valid, and what holds of all application names holds of their names.
pub Holds-current_state :
    (p : Text → Bool) (config : Fields) (pg : Postgres) (cluster : Cluster) (h : Handler)
    → all (λ (row : Row). p row.application_name) pg.stat_replication ≡ true
    → (Holds p (current_state config pg cluster h).1)
      × (Holds p (current_state config pg cluster h).2)
unfolding current_state limits
Holds-current_state p config pg cluster h e =
    let h' = (current_state config pg cluster h).0 in
    let rs = replica_list pg cluster in
    let named : all (λ (r : Replica). p r.application_name) (promotable_first rs) ≡ true =
      all_of_mem _ _ λ r m.
        let f = replica_list-IsFrom pg cluster m in
        rw f.named
          (all-mem (λ (row : Row). p row.application_name) pg.stat_replication e f.listed) in
    Holds-pick p (limits config pg rs h') empty empty (promotable_first rs) named (Holds-empty p)
      (Holds-empty p)
