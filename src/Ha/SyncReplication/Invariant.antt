-- ===== src/Ha/SyncReplication/Invariant.antt =====
-- The order of the writes of `process_sync_replication`: a node that the `/sync` key lists, and
-- that may therefore be promoted, is one that the primary waits for.
use otus_hightload.Prelude.{
  ◌++◌, not, ◌&&◌, Bool, true, false, ◌⊎◌, inl, inr, some, [], ◌∷◌, ◌==◌, ◌≡◌, refl, sym, ◌∙◌,
  arith, all, Bool-cases, if◌then◌else◌,
}
use otus_hightload.Prelude.Text.{Text, spells}
use otus_hightload.Dcs.SyncState.{SyncState, is_empty, members, sync_state}
use otus_hightload.Dcs.SyncState.Write.{is_plain}
use otus_hightload.Collections.Entries.{lookup}
use otus_hightload.Collections.NameSet.{
  empty as none_assigned, NameSet, contains, values, size, from_list, same, intersect,
}
use otus_hightload.Collections.NameSet.Laws.{
  IsValid, contains-from_list, from_list-IsValid, contains-intersect, all-values-from_list,
  all-select,
}
use otus_hightload.Collections.NameSet.Equality.{same_iff}
use otus_hightload.GlobalConfig.{is_synchronous_mode, is_synchronous_mode_strict}
use otus_hightload.Ha.SyncReplication.{
  Inputs, wrote, removed, assigned, star, waits_for, on_success, grant, to_assign, assign, reassign,
  correct, process_sync_replication,
}
use otus_hightload.Ha.SyncReplication.Safety.{
  IsSafe, AlwaysSafe, at_end, after_write, after_assignment, IsSound, spells_written, star-contains,
  AlwaysSafe-if, AlwaysSafe-on_success, nobody,
}

module _ (i : Inputs) (sound : IsSound i) where
  -- a picked node is assigned
  to_assign_covers :
      (w : Text)
      → contains i.picked w ≡ true
      → (contains (to_assign i) w ≡ true) ⊎ (contains (to_assign i) star ≡ true)
  unfolding to_assign
  to_assign_covers w at =
      elim (Bool-cases (is_synchronous_mode_strict i.config && (size i.picked == 0))) [
        | inl e ↦ rw e (inr star-contains)
        | inr e ↦ rw e (inl at)
      ]

  grant_safe :
      (sync : SyncState) (common allow : NameSet)
      → IsSafe sync (to_assign i)
      → IsValid allow
      → all is_plain (values allow) ≡ true
      → ((w : Text) → contains allow w ≡ true → contains i.picked w ≡ true)
      → AlwaysSafe sync (to_assign i) (grant i common allow)
  unfolding grant
  grant_safe sync common allow safe valid plain sub =
      AlwaysSafe-if _ _ _
        (λ _. AlwaysSafe-on_success i.granted _ safe λ v. after_write safe (
          at_end λ w at.
            to_assign_covers w
              (sub w (sym (spells_written i (some v) allow w sound.named valid plain) ∙ at))))
        (λ _. at_end safe)

  assign_safe :
      (sync : SyncState) (names common : NameSet)
      → IsSafe sync names
      → ((w : Text) → spells w (members sync) ≡ true → contains i.picked w ≡ true)
      → AlwaysSafe sync names (assign i common)
  unfolding assign
  assign_safe sync names common safe sub =
      let safe' : IsSafe sync (to_assign i) = λ w at. to_assign_covers w (sub w at) in
      let later =
        grant_safe sync common i.allow_later safe' sound.later_valid sound.later_plain
          sound.later_picked in
      let now =
        grant_safe sync common i.allow_promote safe' sound.allow_valid sound.allow_plain
          sound.allow_picked in
      after_assignment safe (choose (waits_for (to_assign i) i.allow_promote) sync common later now)
    where
      choose :
          (b : Bool) (sync : SyncState) (common : NameSet)
          → AlwaysSafe sync (to_assign i) (grant i common i.allow_later)
          → AlwaysSafe sync (to_assign i) (grant i common i.allow_promote)
          → AlwaysSafe sync
              (to_assign i)
              (grant i common (if b then i.allow_later else i.allow_promote))
      choose true sync common later now = later
      choose false sync common later now = now

  -- the part of the current standbys that may stay
  common_picked :
      (current : NameSet) (w : Text)
      → contains (intersect current i.allow_promote) w ≡ true
      → (contains current w ≡ true) × (contains i.picked w ≡ true)
  common_picked current w at =
      ground (
        arith,
        contains-intersect current i.allow_promote w sound.allow_valid,
        sound.allow_picked w,
      )

  common_plain :
      (current : NameSet) → all is_plain (values (intersect current i.allow_promote)) ≡ true
  common_plain current =
      unfold intersect in
      all-values-from_list is_plain _
        (all-select is_plain (contains current) (values i.allow_promote) sound.allow_plain)

  reassign_safe :
      (sync : SyncState) (names current : NameSet)
      → IsValid current
      → ((w : Text) → contains current w ≡ spells w (members sync))
      → IsSafe sync names
      → AlwaysSafe sync names (reassign i current)
  unfolding reassign
  reassign_safe sync names current valid reads safe =
      let common = intersect current i.allow_promote in
      let common_valid : IsValid common = unfold intersect in from_list-IsValid _ in
      AlwaysSafe-if (same i.picked current) _ _ (λ _. at_end safe)
        λ _.
          AlwaysSafe-if (same common current) _ _
            (λ e. assign_safe sync names common safe λ w at.
              (common_picked current w
                ((same_iff common current common_valid valid).0 e w ∙ (reads w ∙ at))).1)
            (λ _. AlwaysSafe-on_success i.reduced _ safe λ v.
              let reads' = λ (w : Text).
                spells_written i (some v) common w sound.named common_valid
                  (common_plain current) in
              after_write safe (
                assign_safe (sync_state (some v) i.name (values common)) names common
                  (λ w at.
                    safe w (sym (reads w) ∙ (common_picked current w (sym (reads' w) ∙ at)).0))
                  (λ w at. (common_picked current w (sym (reads' w) ∙ at)).1)))

  correct_safe :
      (sync : SyncState) (names : NameSet)
      → IsSafe sync names
      → AlwaysSafe sync names (correct i sync)
  unfolding correct
  correct_safe sync names safe =
      let current = from_list (members sync) in
      let valid = from_list-IsValid (members sync) in
      let reads = contains-from_list (members sync) in
      AlwaysSafe-if (same i.picked current && not (same current i.allow_promote)) _ _
        (λ e. AlwaysSafe-on_success i.corrected _ safe λ v.
          let sync' = sync_state (some v) i.name (values i.allow_promote) in
          let reads' = λ (w : Text).
            spells_written i (some v) i.allow_promote w sound.named sound.allow_valid
              sound.allow_plain in
          let equal = (same_iff i.picked current sound.picked_valid valid).0 (ground arith) in
          let safe' : IsSafe sync' names = λ w at.
            safe w (sym (reads w) ∙ (sym (equal w) ∙ sound.allow_picked w (sym (reads' w) ∙ at))) in
          after_write safe (
            reassign_safe sync' names (from_list (members sync'))
              (from_list-IsValid (members sync')) (contains-from_list (members sync')) safe'))
        (λ _. reassign_safe sync names current valid reads safe)

  enabled_safe :
      (sync : SyncState) (names : NameSet)
      → IsSafe sync names
      → AlwaysSafe sync names (
          if is_empty sync
          then on_success i.enabled
              (λ v. let sync' = sync_state (some v) i.name [] in wrote sync' ∷ correct i sync')
          else correct i sync)
  enabled_safe sync names safe =
      AlwaysSafe-if (is_empty sync) _ _
        (λ _. AlwaysSafe-on_success i.enabled _ safe λ v. after_write safe (
          correct_safe (sync_state (some v) i.name []) names
            λ w at. absurd (nobody i (some v) w sound.named at)))
        (λ _. correct_safe sync names safe)

-- While synchronous mode is on, and the sets that the call is given are sound, every standby that
-- the `/sync` key lists is assigned in the `synchronous_standby_names` of PostgreSQL before, between
-- and after all steps, if it was so at the start.
pub sync_key_follows_assignment :
    (i : Inputs) (names : NameSet)
    → IsSound i
    → is_synchronous_mode i.config ≡ true
    → IsSafe i.sync names
    → AlwaysSafe i.sync names (process_sync_replication i)
unfolding process_sync_replication
sync_key_follows_assignment i names sound on safe = rw on (enabled_safe i sound i.sync names safe)

IsSafe-after_assignment :
    {sync : SyncState} {names names' : NameSet}
    → AlwaysSafe sync names (assigned names' ∷ [])
    → IsSafe sync names'
IsSafe-after_assignment (after_assignment _ (at_end safe)) = safe

nothing_assigned : (w : Text) → contains none_assigned w ≡ false
unfolding contains none_assigned lookup
nothing_assigned w = refl

-- When synchronous mode is switched off and the `/sync` key cannot be deleted, the assignment is
-- dropped all the same: a standby that the key still lists is no longer waited for.
pub failed_delete_is_unsafe :
    (i : Inputs) (names : NameSet) (w : Text)
    → is_synchronous_mode i.config ≡ false
    → i.deleted ≡ false
    → spells w (members i.sync) ≡ true
    → ¬ AlwaysSafe i.sync names (process_sync_replication i)
unfolding process_sync_replication
failed_delete_is_unsafe i names w off failed listed all_safe =
    let steps : (if not (is_empty i.sync) && i.deleted then removed ∷ [] else [])
          ++ assigned none_assigned ∷ []
        ≡ assigned none_assigned ∷ [] =
      ground arith in
    let always : AlwaysSafe i.sync names (assigned none_assigned ∷ []) =
      rw steps at (rw off at all_safe) in
    elim (IsSafe-after_assignment always w listed) [
      | inl e ↦ cc (nothing_assigned w)
      | inr e ↦ cc (nothing_assigned star)
    ]
