-- ===== src/Collections/NameSet/Laws.antt =====
-- What the operations of the case-insensitive set of collections.py do to its members.
use otus_hightload.Prelude.{
  Memᴰ, is_some, ◌∙◌, Bool, false, select, sym, List, all, any, true, ◌+◌, ◌&&◌, ◌||◌, not, [], ◌∷◌,
  ◌≡◌, refl, arith, if◌then◌else◌,
}
use otus_hightload.Prelude.Text.{spells, text_eq_refl, Text, lower, text_eq, text_eq_iff}
use otus_hightload.Collections.Entries.{
  lookup, Entries, put, pop, IsDistinct, lookup-put, lookup-pop, put-IsDistinct, pop-IsDistinct,
  length-put, length-pop,
}
use otus_hightload.Collections.NameSet.{
  values_of, add_all, from_list, intersect, issubset, values, NameSet, empty, add, discard,
  contains, size,
}

-- Every key is its value in lower case.
abbrev pub IsFolded : Entries Text → Type 0
IsFolded [] = Unit
IsFolded ((k, v) ∷ d) = (k ≡ lower v) × IsFolded d

pub record IsValid (s : NameSet) : Type 0 where
  pub distinct : IsDistinct s.entries
  pub folded : IsFolded s.entries

put-IsFolded : (v : Text) (d : Entries Text) → IsFolded d → IsFolded (put (lower v) v d)
unfolding put
put-IsFolded v [] h = (refl, tt)
put-IsFolded v ((i, w) ∷ d) h = ground (arith, put-IsFolded v d h.1, text_eq_iff i (lower v))

pop-IsFolded : (k : Text) (d : Entries Text) → IsFolded d → IsFolded (pop k d)
unfolding pop
pop-IsFolded k [] h = tt
pop-IsFolded k ((i, w) ∷ d) h = ground (arith, pop-IsFolded k d h.1)

pub empty-IsValid : IsValid empty
unfolding empty
empty-IsValid = record { distinct = tt; folded = tt }

pub add-IsValid : (v : Text) (s : NameSet) → IsValid s → IsValid (add v s)
unfolding add
add-IsValid v s h = record {
  distinct = put-IsDistinct (lower v) v s.entries h.distinct;
  folded = put-IsFolded v s.entries h.folded;
}

pub discard-IsValid : (v : Text) (s : NameSet) → IsValid s → IsValid (discard v s)
unfolding discard
discard-IsValid v s h = record {
  distinct = pop-IsDistinct (lower v) s.entries h.distinct;
  folded = pop-IsFolded (lower v) s.entries h.folded;
}

pub contains-add :
    (s : NameSet) (v w : Text)
    → contains (add v s) w ≡ (text_eq (lower v) (lower w) || contains s w)
unfolding contains add
contains-add s v w = ground (arith, lookup-put (lower v) (lower w) v s.entries)

-- After `discard` a valid set contains what it did, less the discarded name in any case of its
-- letters.
pub contains-discard :
    (s : NameSet) (v w : Text)
    → IsValid s
    → contains (discard v s) w ≡ (not (text_eq (lower v) (lower w)) && contains s w)
unfolding contains discard
contains-discard s v w h = ground (arith, lookup-pop (lower v) (lower w) s.entries h.distinct)

pub size-add :
    (s : NameSet) (v : Text) → size (add v s) ≡ (if contains s v then size s else size s + 1)
unfolding size add contains
size-add s v = length-put (lower v) v s.entries

pub size-discard :
    (s : NameSet) (v : Text) → size (discard v s) + (if contains s v then 1 else 0) ≡ size s
unfolding size discard contains
size-discard s v = length-pop (lower v) s.entries

pub spells_of_mem : (w : Text) (names : List Text) → Memᴰ w names → spells w names ≡ true
unfolding any
spells_of_mem w [] m = elim m [ ]
spells_of_mem w (v ∷ rest) (Memᴰ.head e) = ground (arith, text_eq_refl (lower w))
spells_of_mem w (v ∷ rest) (Memᴰ.tail m) = let ih = spells_of_mem w rest m in ground (arith, ih)

contains_entries :
    (d : Entries Text) (w : Text)
    → IsFolded d
    → is_some (lookup (lower w) d) ≡ spells w (values_of d)
unfolding lookup values_of any
contains_entries [] w h = refl
contains_entries ((k, v) ∷ d) w h =
    let ih = contains_entries d w h.1 in rw (h.0) (ground (arith, ih))

-- A valid set contains exactly the names that some value spells.
pub contains-values : (s : NameSet) (w : Text) → IsValid s → contains s w ≡ spells w (values s)
unfolding contains values
contains-values s w h = contains_entries s.entries w h.folded

contains-add_all :
    (s : NameSet) (names : List Text) (w : Text)
    → contains (add_all s names) w ≡ (contains s w || spells w names)
unfolding add_all any
contains-add_all s [] w = ground arith
contains-add_all s (v ∷ rest) w =
    ground (arith, contains-add_all (add v s) rest w, contains-add s v w)

add_all-IsValid : (s : NameSet) (names : List Text) → IsValid s → IsValid (add_all s names)
unfolding add_all
add_all-IsValid s [] h = h
add_all-IsValid s (v ∷ rest) h = add_all-IsValid (add v s) rest (add-IsValid v s h)

pub contains-empty : (w : Text) → contains empty w ≡ false
unfolding contains empty lookup
contains-empty w = refl

-- A set made from a list contains exactly the names that the list spells.
pub contains-from_list :
    (names : List Text) (w : Text) → contains (from_list names) w ≡ spells w names
unfolding from_list
contains-from_list names w = ground (arith, contains-add_all empty names w, contains-empty w)

pub from_list-IsValid : (names : List Text) → IsValid (from_list names)
unfolding from_list
from_list-IsValid names = add_all-IsValid empty names empty-IsValid

spells-select :
    (p : Text → Bool) (w : Text) (names : List Text)
    → ((v : Text) → text_eq (lower v) (lower w) ≡ true → p v ≡ p w)
    → spells w (select p names) ≡ (p w && spells w names)
unfolding any select
spells-select p w [] h = ground arith
spells-select p w (v ∷ rest) h = let ih = spells-select p w rest h in ground (arith, ih, h v)

pub contains_congruent :
    (s : NameSet) (v w : Text) → text_eq (lower v) (lower w) ≡ true → contains s v ≡ contains s w
unfolding contains
contains_congruent s v w h = rw ((text_eq_iff (lower v) (lower w)).0 h)

-- The intersection contains exactly the common names.
pub contains-intersect :
    (a b : NameSet) (w : Text)
    → IsValid b
    → contains (intersect a b) w ≡ (contains a w && contains b w)
unfolding intersect
contains-intersect a b w vb = ground (
  arith,
  contains-from_list (select (contains a) (values b)) w,
  contains-values b w vb,
  spells-select (contains a) w (values b) (λ v. contains_congruent a v w),
)

contains_spelled :
    (s : NameSet) (names : List Text) (w : Text)
    → all (contains s) names ≡ true
    → spells w names ≡ true
    → contains s w ≡ true
unfolding all any
contains_spelled s [] w h e = cc
contains_spelled s (v ∷ rest) w h e =
    ground (arith, contains_spelled s rest w, contains_congruent s v w)

pub issubset_sound :
    (a b : NameSet)
    → IsValid a
    → issubset a b ≡ true
    → (w : Text) → contains a w ≡ true
    → contains b w ≡ true
unfolding issubset
issubset_sound a b va h w at =
    contains_spelled b (values a) w (ground arith) (sym (contains-values a w va) ∙ at)

pub all-select :
    (p q : Text → Bool) (names : List Text) → all p names ≡ true → all p (select q names) ≡ true
unfolding all select
all-select p q [] h = refl
all-select p q (v ∷ rest) h = let ih = all-select p q rest (ground arith) in ground (arith, ih)

all-values-put :
    (p : Text → Bool) (k v : Text) (d : Entries Text)
    → p v ≡ true
    → all p (values_of d) ≡ true
    → all p (values_of (put k v d)) ≡ true
unfolding all values_of put
all-values-put p k v [] hv h = ground arith
all-values-put p k v ((i, w) ∷ d) hv h =
    let ih = all-values-put p k v d hv (ground arith) in ground (arith, ih)

pub all-values-add :
    (p : Text → Bool) (v : Text) (s : NameSet)
    → p v ≡ true
    → all p (values s) ≡ true
    → all p (values (add v s)) ≡ true
unfolding values add
all-values-add p v s hv h = all-values-put p (lower v) v s.entries hv h

all-values-add_all :
    (p : Text → Bool) (s : NameSet) (names : List Text)
    → all p (values s) ≡ true
    → all p names ≡ true
    → all p (values (add_all s names)) ≡ true
unfolding all add_all
all-values-add_all p s [] hs h = hs
all-values-add_all p s (v ∷ rest) hs h =
    all-values-add_all p (add v s) rest (all-values-add p v s (ground arith) hs) (ground arith)

-- What holds of all names of a list holds of all values of the set made from it.
pub all-values-from_list :
    (p : Text → Bool) (names : List Text)
    → all p names ≡ true
    → all p (values (from_list names)) ≡ true
unfolding from_list
all-values-from_list p names h =
    all-values-add_all p empty names (unfold all values empty in refl) h
