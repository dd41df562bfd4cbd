-- ===== src/Ha/SyncReplication/Safety.antt =====
-- What it means that the `/sync` key and the assignment of PostgreSQL fit together throughout the
-- steps of `process_sync_replication`, and what the call needs of its inputs.
use otus_hightload.Prelude.{
  ℕ, Bool, true, false, ◌⊎◌, Option, none, some, List, [], ◌∷◌, ◌≡◌, refl, sym, ◌∙◌, all, any,
  if◌then◌else◌,
}
use otus_hightload.Prelude.Text.{Text, non_empty, spells, text_eq, lower}
use otus_hightload.Dcs.SyncState.{SyncState, empty, members, sync_state}
use otus_hightload.Dcs.SyncState.Write.{is_plain, any-members-sync_state}
use otus_hightload.Collections.NameSet.{NameSet, contains, values, from_list}
use otus_hightload.Collections.NameSet.Laws.{IsValid, contains-values, contains-from_list}
use otus_hightload.Ha.SyncReplication.{Inputs, Step, wrote, removed, assigned, star, on_success}

-- Every standby of the `/sync` key is assigned, or all nodes are (`*`).
abbrev pub IsSafe : SyncState → NameSet → Type 0
IsSafe sync names =
    (w : Text)
    → spells w (members sync) ≡ true
    → (contains names w ≡ true) ⊎ (contains names star ≡ true)

-- It holds before, between and after the steps.
pub data AlwaysSafe : SyncState → NameSet → List Step → Type 0 where
  at_end : {sync : SyncState} {names : NameSet} → IsSafe sync names → AlwaysSafe sync names []
  after_write :
      {sync sync' : SyncState} {names : NameSet} {rest : List Step}
      → IsSafe sync names
      → AlwaysSafe sync' names rest
      → AlwaysSafe sync names (wrote sync' ∷ rest)
  after_removal :
      {sync : SyncState} {names : NameSet} {rest : List Step}
      → IsSafe sync names
      → AlwaysSafe (empty none) names rest
      → AlwaysSafe sync names (removed ∷ rest)
  after_assignment :
      {sync : SyncState} {names names' : NameSet} {rest : List Step}
      → IsSafe sync names
      → AlwaysSafe sync names' rest
      → AlwaysSafe sync names (assigned names' ∷ rest)

-- What the call needs of its inputs: sets of plain names, and from `current_state` that a node
-- which is allowed to be promoted was picked, also after the wait.
pub record IsSound (i : Inputs) : Type 0 where
  pub named : non_empty i.name ≡ true
  pub picked_valid : IsValid i.picked
  pub allow_valid : IsValid i.allow_promote
  pub later_valid : IsValid i.allow_later
  pub allow_plain : all is_plain (values i.allow_promote) ≡ true
  pub later_plain : all is_plain (values i.allow_later) ≡ true
  pub allow_picked : (w : Text) → contains i.allow_promote w ≡ true → contains i.picked w ≡ true
  pub later_picked : (w : Text) → contains i.allow_later w ≡ true → contains i.picked w ≡ true

-- What a written key lists is what the set contains.
pub spells_written :
    (i : Inputs) (v : Option ℕ) (s : NameSet) (w : Text)
    → non_empty i.name ≡ true
    → IsValid s
    → all is_plain (values s) ≡ true
    → spells w (members (sync_state v i.name (values s))) ≡ contains s w
spells_written i v s w named valid plain =
    any-members-sync_state _ v i.name (values s) named plain ∙ sym (contains-values s w valid)

pub star-contains : contains (from_list (star ∷ [])) star ≡ true
unfolding any text_eq lower
star-contains = contains-from_list (star ∷ []) star

pub AlwaysSafe-if :
    (b : Bool) {sync : SyncState} {names : NameSet} (xs ys : List Step)
    → (b ≡ true → AlwaysSafe sync names xs)
    → (b ≡ false → AlwaysSafe sync names ys)
    → AlwaysSafe sync names (if b then xs else ys)
AlwaysSafe-if true xs ys hx hy = hx refl
AlwaysSafe-if false xs ys hx hy = hy refl

pub AlwaysSafe-on_success :
    (o : Option ℕ) {sync : SyncState} {names : NameSet} (next : ℕ → List Step)
    → IsSafe sync names
    → ((v : ℕ) → AlwaysSafe sync names (next v))
    → AlwaysSafe sync names (on_success o next)
unfolding on_success
AlwaysSafe-on_success none next safe h = at_end safe
AlwaysSafe-on_success (some v) next safe h = h v

pub nobody :
    (i : Inputs) (v : Option ℕ) (w : Text)
    → non_empty i.name ≡ true
    → ¬ (spells w (members (sync_state v i.name [])) ≡ true)
unfolding any all
nobody i v w named at =
    cc (any-members-sync_state (λ u. text_eq (lower u) (lower w)) v i.name [] named refl)
