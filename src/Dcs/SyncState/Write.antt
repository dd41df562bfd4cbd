-- ===== src/Dcs/SyncState/Write.antt =====
-- What is written to the `/sync` key reads back: `sync_state` against `SyncState.members`.
use otus_hightload.Prelude.{
  ℕ, Bool, true, not, ◌&&◌, ◌||◌, Option, List, [], ◌∷◌, ◌++◌, ◌≡◌, refl, arith, ap, sym, ◌∙◌, all,
  any, map, select, if◌then◌else◌, ◌==◌,
}
use otus_hightload.Prelude.Text.{Text, text_eq, text_eq_iff, non_empty, strip, split}
use otus_hightload.Dcs.SyncState.{
  is_empty, members, str_to_list, sync_state, sort, insert_sorted, join,
}

-- A name that a comma-separated list can hold: not empty, no comma, no space at its ends.
abbrev pub is_plain : Text → Bool
is_plain s = non_empty s && all (λ c. not (c == b',')) s && text_eq (strip s) s

split_one : (s : Text) → all (λ c. not (c == b',')) s ≡ true → split b',' s ≡ s ∷ []
unfolding split all
split_one [] h = refl
split_one (c ∷ s) h = let ih = split_one s (ground arith) in ground (arith, ih)

split_more :
    (s t : Text)
    → all (λ c. not (c == b',')) s ≡ true
    → split b',' (s ++ b',' ∷ t) ≡ s ∷ split b',' t
unfolding split all
split_more [] t h = refl
split_more (c ∷ s) t h = let ih = split_more s t (ground arith) in ground (arith, ih)

split-join :
    (s : Text) (names : List Text)
    → all is_plain (s ∷ names) ≡ true
    → split b',' (join (s ∷ names)) ≡ s ∷ names
unfolding join all
split-join s [] h = split_one s (ground arith)
split-join s (t ∷ rest) h =
    split_more s (join (t ∷ rest)) (ground arith)
    ∙ ap (λ ts. s ∷ ts) (split-join t rest (ground arith))

keep_plain :
    (names : List Text) → all is_plain names ≡ true → select non_empty (map strip names) ≡ names
unfolding select all
keep_plain [] h = refl
keep_plain (s ∷ rest) h =
    let ih = keep_plain rest (ground arith) in ground (arith, ih, text_eq_iff (strip s) s)

pub str_to_list-join :
    (s : Text) (names : List Text)
    → all is_plain (s ∷ names) ≡ true
    → str_to_list (join (s ∷ names)) ≡ s ∷ names
unfolding str_to_list
str_to_list-join s names h =
    ap (λ ts. select non_empty (map strip ts)) (split-join s names h) ∙ keep_plain (s ∷ names) h

any-insert_sorted :
    (p : Text → Bool) (s : Text) (names : List Text)
    → any p (insert_sorted s names) ≡ (p s || any p names)
unfolding any insert_sorted
any-insert_sorted p s [] = refl
any-insert_sorted p s (t ∷ rest) = ground (arith, any-insert_sorted p s rest)

any-sort : (p : Text → Bool) (names : List Text) → any p (sort names) ≡ any p names
unfolding sort any
any-sort p [] = refl
any-sort p (s ∷ rest) = ground (arith, any-insert_sorted p s (sort rest), any-sort p rest)

all-insert_sorted :
    (p : Text → Bool) (s : Text) (names : List Text)
    → all p (insert_sorted s names) ≡ (p s && all p names)
unfolding all insert_sorted
all-insert_sorted p s [] = refl
all-insert_sorted p s (t ∷ rest) = ground (arith, all-insert_sorted p s rest)

all-sort : (p : Text → Bool) (names : List Text) → all p (sort names) ≡ all p names
unfolding sort all
all-sort p [] = refl
all-sort p (s ∷ rest) = ground (arith, all-insert_sorted p s (sort rest), all-sort p rest)

pub str_to_list-empty : str_to_list [] ≡ []
unfolding str_to_list split strip select
str_to_list-empty = refl

str_to_list-sorted :
    (names : List Text) → all is_plain names ≡ true → str_to_list (join names) ≡ names
str_to_list-sorted [] h = unfold join in str_to_list-empty
str_to_list-sorted (s ∷ rest) h = str_to_list-join s rest h

pub read_standbys :
    (text : Text) → (if non_empty text then str_to_list text else []) ≡ str_to_list text
read_standbys [] = sym str_to_list-empty
read_standbys (c ∷ s) = refl

-- The standbys that are written to the `/sync` key, with a leader, are read back sorted, if no
-- name is empty, holds a comma or has spaces at its ends.
pub members-sync_state :
    (version : Option ℕ) (leader : Text) (names : List Text)
    → non_empty leader ≡ true
    → all is_plain names ≡ true
    → members (sync_state version leader names) ≡ sort names
unfolding members sync_state is_empty
members-sync_state version leader [] l h = unfold sort in ground arith
members-sync_state version leader (s ∷ rest) l h =
    let text = join (sort (s ∷ rest)) in
    let read =
      read_standbys text
      ∙ str_to_list-sorted (sort (s ∷ rest)) (all-sort is_plain (s ∷ rest) ∙ h) in
    rw l read

-- The written standbys answer a test as the given names do.
pub any-members-sync_state :
    (p : Text → Bool) (version : Option ℕ) (leader : Text) (names : List Text)
    → non_empty leader ≡ true
    → all is_plain names ≡ true
    → any p (members (sync_state version leader names)) ≡ any p names
any-members-sync_state p version leader names l h =
    ap (any p) (members-sync_state version leader names l h) ∙ any-sort p names
