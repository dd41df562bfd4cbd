-- ===== src/Postgresql/SyncHandler/Candidates.antt =====
-- What `current_state` of sync.py promises: the synchronous standbys that it reports are among
-- the candidates, and PostgreSQL waits for them.
use otus_hightload.Postgresql.StandbyNames.{parse_sync_standby_names, Ssn}
use otus_hightload.GlobalConfig.{synchronous_node_count}
use otus_hightload.Postgresql.SyncHandler.Tracking.{
  IsTracked, current_state-IsTracked, names-current_state,
}
use otus_hightload.Py.{Fields}
use otus_hightload.Dcs.Cluster.{Cluster}
use otus_hightload.Postgresql.SyncHandler.{
  Handler, current_state, limits, or_empty_ssn, promotable_first, Limits, is_near, pick,
}
use otus_hightload.Postgresql.Replicas.{Postgres, replica_list, Replica}
use otus_hightload.Collections.Entries.{lookup}
use otus_hightload.Collections.NameDict.Laws.{has_key-lookup}
use otus_hightload.Collections.NameSet.Laws.{contains-empty, contains-add, size-add}
use otus_hightload.Prelude.{
  refl, is_some, sym, ap, ◌∙◌, ℕ, ◌+◌, ◌≤◌, Bool, true, false, ◌&&◌, ◌⊎◌, inl, inr, List, [], ◌∷◌,
  ◌≡◌, arith, if◌then◌else◌, Bool-cases,
}
use otus_hightload.Prelude.Int.{pos, ltb_ℤ, ◌≤ℤ◌}
use otus_hightload.Prelude.Text.{text_eq_iff, lower, Text, text_eq, codes}
use otus_hightload.Collections.NameSet.{empty, NameSet, add, contains, size}
use otus_hightload.Collections.NameDict.{NameDict, has_key}

-- Every synchronous node is a candidate.
abbrev pub IsWithin : NameSet × NameSet → Type 0
IsWithin (candidates, sync_nodes) =
    (w : Text) → contains sync_nodes w ≡ true → contains candidates w ≡ true

IsWithin-if :
    (b : Bool) (x y : NameSet × NameSet) → IsWithin x → IsWithin y → IsWithin (if b then x else y)
IsWithin-if true x y hx hy = hx
IsWithin-if false x y hx hy = hy

added :
    (r : Replica) (near synced : Bool) (c s : NameSet)
    → IsWithin (c, s)
    → (synced ≡ true → near ≡ true)
    → IsWithin (
      if near then add r.application_name c else c,
      if synced then add r.application_name s else s,
    )
added r near synced c s h sub w at =
    ground
      (arith, h w, contains-add c r.application_name w, contains-add s r.application_name w, sub)

pick-IsWithin :
    (l : Limits) (c s : NameSet) (rs : List Replica) → IsWithin (c, s) → IsWithin (pick l c s rs)
unfolding pick
pick-IsWithin l c s [] h = h
pick-IsWithin l c s (r ∷ rest) h =
    let near = is_near l.maxlag l.newest r in
    let synced =
      near && text_eq r.sync_state (codes "sync") && has_key l.ready r.application_name in
    let c' = if near then add r.application_name c else c in
    let s' = if synced then add r.application_name s else s in
    let h' : IsWithin (c', s') = added r near synced c s h (ground arith) in
    IsWithin-if (ltb_ℤ (pos (size c')) l.node_count) _ _ (pick-IsWithin l c' s' rest h') h'

-- at most as many as asked for, but one at least
pick_bounded :
    (l : Limits) (c s : NameSet) (rs : List Replica)
    → (size c ≡ 0) ⊎ (ltb_ℤ (pos (size c)) l.node_count ≡ true)
    → (size (pick l c s rs).0 ≤ 1) ⊎ (pos (size (pick l c s rs).0) ≤ℤ l.node_count)
unfolding pick
pick_bounded l c s [] h = ground arith
pick_bounded l c s (r ∷ rest) h =
    let near = is_near l.maxlag l.newest r in
    let synced =
      near && text_eq r.sync_state (codes "sync") && has_key l.ready r.application_name in
    let c' = if near then add r.application_name c else c in
    let s' = if synced then add r.application_name s else s in
    let ih = pick_bounded l c' s' rest in
    let grows : size c' ≤ size c + 1 = ground (arith, size-add c r.application_name) in
    elim (Bool-cases (ltb_ℤ (pos (size c')) l.node_count)) [
      | inl e ↦ rw e (ih (inr e))
      | inr e ↦ rw e (ground arith)
    ]

has_key_congruent :
    (d : NameDict ℕ) (v w : Text) → text_eq (lower v) (lower w) ≡ true → has_key d v ≡ has_key d w
has_key_congruent d v w h =
    let e = (text_eq_iff (lower v) (lower w)).0 h in
    has_key-lookup d v ∙ ap (λ k. is_some (lookup k d.entries)) e ∙ sym (has_key-lookup d w)

pick_ready :
    (l : Limits) (c s : NameSet) (rs : List Replica) (w : Text)
    → contains (pick l c s rs).1 w ≡ true
    → (contains s w ≡ true) ⊎ (has_key l.ready w ≡ true)
unfolding pick
pick_ready l c s [] w at = inl at
pick_ready l c s (r ∷ rest) w at =
    let near = is_near l.maxlag l.newest r in
    let synced =
      near && text_eq r.sync_state (codes "sync") && has_key l.ready r.application_name in
    let c' = if near then add r.application_name c else c in
    let s' = if synced then add r.application_name s else s in
    ground (
      arith,
      pick_ready l c' s' rest w,
      contains-add s r.application_name w,
      has_key_congruent l.ready r.application_name w,
    )

-- Every synchronous standby that `current_state` reports is a candidate, and is listed in the
-- `synchronous_standby_names` that PostgreSQL has, if what the handler holds was right before.
pub sync_nodes_awaited :
    (config : Fields) (pg : Postgres) (cluster : Cluster) (h : Handler)
    → IsTracked h
    → (w : Text) → contains (current_state config pg cluster h).2 w ≡ true
    → (contains (current_state config pg cluster h).1 w ≡ true)
      × (contains (or_empty_ssn (parse_sync_standby_names pg.synchronous_standby_names)).members w
          ≡ true)
unfolding current_state limits
sync_nodes_awaited config pg cluster h t w at =
    let t' = current_state-IsTracked config pg cluster h t in
    let h' = (current_state config pg cluster h).0 in
    let rs = replica_list pg cluster in
    let l = limits config pg rs h' in
    let known =
      t'.parsed
      ∙ ap (λ s. or_empty_ssn (parse_sync_standby_names s))
          (names-current_state config pg cluster h) in
    (
      pick-IsWithin l empty empty (promotable_first rs) (λ v e. e) w at,
      elim (pick_ready l empty empty (promotable_first rs) w at) [
        | inl e ↦ absurd (ground (arith, contains-empty w))
        | inr ready ↦ sym (ap (λ (r : Ssn). contains r.members w) known) ∙ t'.listed w ready
      ],
    )

-- There is at most one candidate, or PostgreSQL supports several synchronous standbys and the
-- candidates are no more than `synchronous_node_count`.
pub candidates_bounded :
    (config : Fields) (pg : Postgres) (cluster : Cluster) (h : Handler)
    → (size (current_state config pg cluster h).1 ≤ 1)
      ⊎ (pg.supports_multiple_sync ≡ true)
        × (pos (size (current_state config pg cluster h).1) ≤ℤ synchronous_node_count config)
unfolding current_state limits
candidates_bounded config pg cluster h =
    let h' = (current_state config pg cluster h).0 in
    let rs = replica_list pg cluster in
    ground (
      arith,
      pick_bounded (limits config pg rs h') empty empty (promotable_first rs)
          (inl (unfold size empty in refl)),
    )
