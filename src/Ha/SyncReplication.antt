-- ===== src/Ha/SyncReplication.antt =====
-- `process_sync_replication` of ha.py: the writes to the `/sync` key and to the
-- `synchronous_standby_names` of PostgreSQL that one call makes, in their order. What the DCS and
-- the local PostgreSQL answer is input.
pub mod Safety
pub mod Invariant
pub mod Cycle
pub mod Round
use otus_hightload.Prelude.{
  ℕ, Bool, not, ◌&&◌, Option, none, some, List, [], ◌∷◌, ◌++◌, ◌==◌, if◌then◌else◌,
}
use otus_hightload.Prelude.Text.{Text, codes}
use otus_hightload.Py.{Fields}
use otus_hightload.Dcs.SyncState.{SyncState, is_empty, members, sync_state}
use otus_hightload.Collections.NameSet.{NameSet, empty, values, size, from_list, same, intersect}
use otus_hightload.GlobalConfig.{is_synchronous_mode, is_synchronous_mode_strict}

pub record Inputs : Type 0 where
  pub name : Text
  pub config : Fields
  pub sync : SyncState  -- cluster.sync
  pub picked : NameSet  -- the first current_state()
  pub allow_promote : NameSet
  pub allow_later : NameSet  -- the second one, after the wait
  -- the versions that the writes return; `none` is a failed write
  pub enabled : Option ℕ
  pub corrected : Option ℕ
  pub reduced : Option ℕ
  pub granted : Option ℕ
  pub deleted : Bool  -- delete_sync_state()

pub data Step : Type 0 where
  wrote : SyncState → Step
  removed : Step
  assigned : NameSet → Step

abbrev pub star : Text
star = codes "*"

-- `if picked and picked != CaseInsensitiveSet('*') and allow_promote != picked`
waits_for : NameSet → NameSet → Bool
waits_for picked allow =
    not (size picked == 0) && not (same picked (from_list (star ∷ []))) && not (same allow picked)

-- goes on if the write returned a version
pub on_success : Option ℕ → (ℕ → List Step) → List Step
on_success none next = []
on_success (some v) next = next v

grant : Inputs → NameSet → NameSet → List Step
grant i common allow =
    if not (size allow == 0) && not (same allow common)
    then on_success i.granted (λ v. wrote (sync_state (some v) i.name (values allow)) ∷ [])
    else []

-- with `*` where strict mode has nobody to wait for
unfoldable pub to_assign : Inputs → NameSet
to_assign i =
    if is_synchronous_mode_strict i.config && (size i.picked == 0)
    then from_list (star ∷ [])
    else i.picked

assign : Inputs → NameSet → List Step
unfolding waits_for
assign i common =
    let picked = to_assign i in
    assigned picked
    ∷ grant i common (if waits_for picked i.allow_promote then i.allow_later else i.allow_promote)

-- from `if picked != current` on
reassign : Inputs → NameSet → List Step
reassign i current =
    if same i.picked current
    then []
    else let common = intersect current i.allow_promote in
      if same common current
      then assign i common
      else on_success i.reduced
          (λ v. wrote (sync_state (some v) i.name (values common)) ∷ assign i common)

correct : Inputs → SyncState → List Step
correct i sync =
    let current = from_list (members sync) in
    if same i.picked current && not (same current i.allow_promote)
    then on_success i.corrected (λ v.
      let sync' = sync_state (some v) i.name (values i.allow_promote) in
      wrote sync' ∷ reassign i (from_list (members sync')))
    else reassign i current

unfoldable pub process_sync_replication : Inputs → List Step
unfolding correct reassign assign grant on_success
process_sync_replication i =
    if is_synchronous_mode i.config
    then (if is_empty i.sync
        then on_success i.enabled
            (λ v. let sync = sync_state (some v) i.name [] in wrote sync ∷ correct i sync)
        else correct i i.sync)
    else (if not (is_empty i.sync) && i.deleted then removed ∷ [] else []) ++ assigned empty ∷ []
