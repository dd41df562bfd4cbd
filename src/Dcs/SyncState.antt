-- ===== src/Dcs/SyncState.antt =====
-- `SyncState` of .patroni/patroni/dcs/__init__.py: the `/sync` key, which lists the standbys that
-- may take over in synchronous mode, and `sync_state`, which writes it. Versions are opaque.
pub mod Write
pub mod Matches
use otus_hightload.Prelude.{
  ◌==◌, ◌||◌, ltb, ℕ, Bool, true, false, not, ◌&&◌, Option, none, some, List, [], ◌∷◌, ◌++◌, map,
  if◌then◌else◌, select,
}
use otus_hightload.Prelude.Text.{Text, text_eq, mem_text, non_empty, lower, strip, split}

pub record SyncState : Type 0 where
  pub version : Option ℕ
  pub leader : Option Text
  pub sync_standby : Option Text

-- `bool(s)` of an optional text
abbrev pub is_set : Option Text → Bool
is_set none = false
is_set (some s) = non_empty s

-- `s or ''`
abbrev pub or_empty : Option Text → Text
or_empty none = []
or_empty (some s) = s

unfoldable pub empty : Option ℕ → SyncState
empty version = record { version = version; leader = none; sync_standby = none }

unfoldable pub is_empty : SyncState → Bool
is_empty s = not (is_set s.leader)

unfoldable pub str_to_list : Text → List Text
str_to_list value = select non_empty (map strip (split b',' value))

unfoldable pub members : SyncState → List Text
members s =
    if not (is_empty s) && is_set s.sync_standby then str_to_list (or_empty s.sync_standby) else []

-- `name` is tested by its text, so `None` is the empty name
unfoldable pub matches : SyncState → Text → Bool → Bool
matches s name check_leader =
    if non_empty name && not (is_empty s)
    then mem_text (lower name) (
        str_to_list (
          lower
            (or_empty s.sync_standby ++ (if check_leader then b',' ∷ or_empty s.leader else []))))
    else false

unfoldable pub leader_matches : SyncState → Text → Bool
leader_matches s name =
    non_empty name && not (is_empty s) && text_eq (lower name) (lower (or_empty s.leader))

-- `a < b` on texts
unfoldable pub text_lt : Text → Text → Bool
text_lt [] [] = false
text_lt [] (d ∷ t) = true
text_lt (c ∷ s) [] = false
text_lt (c ∷ s) (d ∷ t) = ltb c d || ((c == d) && text_lt s t)

insert_sorted : Text → List Text → List Text
insert_sorted s [] = s ∷ []
insert_sorted s (t ∷ rest) =
    let later = insert_sorted s rest in if text_lt t s then t ∷ later else s ∷ t ∷ rest

-- `sorted(names)`
unfoldable pub sort : List Text → List Text
unfolding insert_sorted text_lt
sort [] = []
sort (s ∷ rest) = insert_sorted s (sort rest)

-- `','.join(names)`
unfoldable pub join : List Text → Text
join [] = []
join (s ∷ []) = s
join (s ∷ t ∷ rest) = s ++ b',' ∷ join (t ∷ rest)

-- `SyncState.from_node(version, sync_state(leader, names))`
unfoldable pub sync_state : Option ℕ → Text → List Text → SyncState
sync_state version leader [] = record {
  version = version;
  leader = some leader;
  sync_standby = none;
}
sync_state version leader (s ∷ rest) = record {
  version = version;
  leader = some leader;
  sync_standby = some (join (sort (s ∷ rest)));
}
