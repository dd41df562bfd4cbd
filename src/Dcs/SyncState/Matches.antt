-- ===== src/Dcs/SyncState/Matches.antt =====
-- `SyncState.matches` searches a lower-case text; here it is compared with the list of members.
use mathlib.Core.List.{append-nil, map-append}
use otus_hightload.Prelude.{
  Bool-cases, inl, inr, Bool, true, false, ◌&&◌, ◌||◌, Option, none, some, List, [], ◌∷◌, ◌++◌, ◌≡◌,
  refl, arith, ap, sym, ◌∙◌, all, any, map, select, if◌then◌else◌,
}
use otus_hightload.Prelude.Text.{
  Text, text_eq, text_eq_iff, mem_text, non_empty, lower, strip, split, spells,
}
use otus_hightload.Prelude.Text.Folding.{split-lower, strip-lower, non_empty-lower, split-append}
use otus_hightload.Dcs.SyncState.{
  SyncState, is_set, or_empty, is_empty, members, str_to_list, join, matches, leader_matches,
}
use otus_hightload.Dcs.SyncState.Write.{
  is_plain, read_standbys, str_to_list-empty, str_to_list-join,
}

kept-lower :
    (pieces : List Text)
    → select non_empty (map strip (map lower pieces))
      ≡ map lower (select non_empty (map strip pieces))
unfolding select
kept-lower [] = refl
kept-lower (s ∷ rest) =
    let ih = kept-lower rest in ground (arith, ih, strip-lower s, non_empty-lower (strip s))

str_to_list-lower : (s : Text) → str_to_list (lower s) ≡ map lower (str_to_list s)
unfolding str_to_list
str_to_list-lower s =
    ap (λ ts. select non_empty (map strip ts)) (split-lower s) ∙ kept-lower (split b',' s)

text_eq_sym : (s t : Text) → text_eq s t ≡ text_eq t s
text_eq_sym s t = ground (arith, text_eq_iff s t, text_eq_iff t s)

mem_text-lower :
    (name : Text) (names : List Text) → mem_text (lower name) (map lower names) ≡ spells name names
unfolding mem_text any
mem_text-lower name [] = refl
mem_text-lower name (v ∷ rest) =
    let ih = mem_text-lower name rest in ground (arith, ih, text_eq_sym (lower name) (lower v))

mem_lowered :
    (name text : Text)
    → mem_text (lower name) (str_to_list (lower text)) ≡ spells name (str_to_list text)
mem_lowered name text =
    ap (mem_text (lower name)) (str_to_list-lower text) ∙ mem_text-lower name (str_to_list text)

select-append :
    (p : Text → Bool) (xs ys : List Text) → select p (xs ++ ys) ≡ select p xs ++ select p ys
unfolding select
select-append p [] ys = refl
select-append p (x ∷ xs) ys = let ih = select-append p xs ys in ground (arith, ih)

str_to_list-append : (s t : Text) → str_to_list (s ++ b',' ∷ t) ≡ str_to_list s ++ str_to_list t
unfolding str_to_list
str_to_list-append s t =
    ap (λ ts. select non_empty (map strip ts)) (split-append s t)
    ∙ ap (select non_empty) (map-append strip (split b',' s) (split b',' t))
    ∙ select-append non_empty (map strip (split b',' s)) (map strip (split b',' t))

any-append : (p : Text → Bool) (xs ys : List Text) → any p (xs ++ ys) ≡ (any p xs || any p ys)
unfolding any
any-append p [] ys = refl
any-append p (x ∷ xs) ys = let ih = any-append p xs ys in ground (arith, ih)

read_optional :
    (o : Option Text)
    → (if is_set o then str_to_list (or_empty o) else []) ≡ str_to_list (or_empty o)
read_optional none = sym str_to_list-empty
read_optional (some s) = read_standbys s

members-eq-read :
    (s : SyncState) → is_empty s ≡ false → members s ≡ str_to_list (or_empty s.sync_standby)
unfolding members
members-eq-read s h = rw h (read_optional s.sync_standby)

-- A name matches the `/sync` key as a standby exactly when it is no empty name and is one of the
-- key's members, up to the case of its letters.
pub matches-members :
    (s : SyncState) (name : Text)
    → matches s name false ≡ (non_empty name && spells name (members s))
unfolding matches
matches-members s name = elim (Bool-cases (is_empty s)) [
  | inl e ↦ unfold members any in ground arith
  | inr e ↦ ground (
    arith,
    ap (spells name) (members-eq-read s e),
    append-nil (or_empty s.sync_standby),
    mem_lowered name (or_empty s.sync_standby ++ []),
  )
]

spells_plain :
    (name leader : Text)
    → is_plain leader ≡ true
    → spells name (str_to_list leader) ≡ text_eq (lower leader) (lower name)
unfolding any
spells_plain name leader h =
    let listed = str_to_list-join leader [] (unfold all in ground arith) in
    let one : str_to_list leader ≡ leader ∷ [] = unfold join in listed in rw one (ground arith)

-- With its leader asked for too, the `/sync` key matches a name exactly when one of its standbys
-- or its leader does, if the leader's name is a plain one.
matches-leader :
    (s : SyncState) (name : Text)
    → is_plain (or_empty s.leader) ≡ true
    → matches s name true ≡ (matches s name false || leader_matches s name)
unfolding matches leader_matches
matches-leader s name h =
    let standby = or_empty s.sync_standby in
    let leader = or_empty s.leader in
    ground (
      arith,
      mem_lowered name (standby ++ b',' ∷ leader),
      mem_lowered name (standby ++ []),
      append-nil standby,
      str_to_list-append standby leader,
      any-append (λ v. text_eq (lower v) (lower name)) (str_to_list standby) (str_to_list leader),
      spells_plain name leader h,
      text_eq_sym (lower leader) (lower name),
    )
