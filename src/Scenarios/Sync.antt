-- ===== src/Scenarios/Sync.antt =====
-- Synchronous replication at concrete inputs.
use otus_hightload.Prelude.{true, false, some, [], ◌∷◌, ◌≡◌, refl, inl, all, any, select, ◌∙◌, ◌&&◌}
use otus_hightload.Prelude.Text.{Text, codes, text_eq, lower, split, strip, spells, mem_text}
use otus_hightload.Py.{Fields, bool, field, end, get}
use otus_hightload.Utils.{parse_bool}
use otus_hightload.Dcs.SyncState.{
  SyncState, is_empty, members, matches, str_to_list, sync_state, sort,
}
use otus_hightload.Dcs.SyncState.Write.{members-sync_state}
use otus_hightload.Dcs.SyncState.Matches.{matches-members}
use otus_hightload.Collections.Entries.{put}
use otus_hightload.Collections.NameSet.{
  contains, values, from_list, add, add_all, empty as no_names,
}
use otus_hightload.Collections.NameSet.Laws.{from_list-IsValid, contains-from_list}
use otus_hightload.GlobalConfig.{check_mode, is_standby_cluster, is_synchronous_mode}
use otus_hightload.Ha.SyncReplication.{Inputs, process_sync_replication}
use otus_hightload.Ha.SyncReplication.Safety.{IsSafe, AlwaysSafe, IsSound}
use otus_hightload.Ha.SyncReplication.Invariant.{
  sync_key_follows_assignment, failed_delete_is_unsafe,
}

-- the primary `a` replaces the standby `b` by `c`
abbrev pub key : SyncState
key = record { version = some 7; leader = some (codes "a"); sync_standby = some (codes "b") }

abbrev pub on : Fields
on = field (codes "synchronous_mode") (bool true) end

abbrev pub replaces : Inputs
replaces = record {
  name = codes "a";
  config = on;
  sync = key;
  picked = from_list (codes "c" ∷ []);
  allow_promote = from_list [];
  allow_later = from_list (codes "c" ∷ []);
  enabled = some 8;
  corrected = some 8;
  reduced = some 8;
  granted = some 9;
  deleted = false;
}

nobody_allowed :
    (w : Text) → contains (from_list []) w ≡ true → contains (from_list (codes "c" ∷ [])) w ≡ true
unfolding any
nobody_allowed w at = cc (contains-from_list [] w)

replaces-IsSound : IsSound replaces
unfolding values from_list add add_all no_names put all split strip lower text_eq
replaces-IsSound = record {
  named = refl;
  picked_valid = from_list-IsValid (codes "c" ∷ []);
  allow_valid = from_list-IsValid [];
  later_valid = from_list-IsValid (codes "c" ∷ []);
  allow_plain = refl;
  later_plain = refl;
  allow_picked = nobody_allowed;
  later_picked = λ w at. at;
}

key_members : members key ≡ codes "b" ∷ []
unfolding members is_empty str_to_list split strip select
key_members = refl

pub on_is_on : is_synchronous_mode on ≡ true
unfolding is_synchronous_mode check_mode is_standby_cluster parse_bool get text_eq any
on_is_on = refl

pub key-IsSafe : IsSafe key (from_list (codes "b" ∷ []))
key-IsSafe w at = inl (contains-from_list (codes "b" ∷ []) w ∙ (rw key_members at at))

sync_key_follows_assignment_example :
    AlwaysSafe key (from_list (codes "b" ∷ [])) (process_sync_replication replaces)
sync_key_follows_assignment_example =
    sync_key_follows_assignment replaces (from_list (codes "b" ∷ [])) replaces-IsSound on_is_on
      key-IsSafe

abbrev switched_off : Inputs
switched_off = record replaces { config = end }

off_is_off : is_synchronous_mode end ≡ false
unfolding is_synchronous_mode check_mode parse_bool get any text_eq
off_is_off = refl

b_is_listed : spells (codes "b") (members key) ≡ true
unfolding members is_empty str_to_list split strip select any text_eq lower
b_is_listed = refl

failed_delete_is_unsafe_example :
    ¬ AlwaysSafe key (from_list (codes "b" ∷ [])) (process_sync_replication switched_off)
failed_delete_is_unsafe_example =
    failed_delete_is_unsafe switched_off (from_list (codes "b" ∷ [])) (codes "b") off_is_off refl
      b_is_listed

matches-members_example : matches key (codes "B") false ≡ (true && spells (codes "B") (members key))
matches-members_example = matches-members key (codes "B")

matches_upper : matches key (codes "B") false ≡ true
unfolding matches is_empty str_to_list split strip select lower mem_text text_eq
matches_upper = refl

members-sync_state_example :
    members (sync_state (some 1) (codes "a") (codes "c" ∷ codes "b" ∷ []))
    ≡ sort (codes "c" ∷ codes "b" ∷ [])
unfolding all text_eq strip
members-sync_state_example =
    members-sync_state (some 1) (codes "a") (codes "c" ∷ codes "b" ∷ []) refl refl
