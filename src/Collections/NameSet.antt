-- ===== src/Collections/NameSet.antt =====
-- `CaseInsensitiveSet` of collections.py, with the comparisons and the intersection that it takes
-- from `collections.abc.Set`.
pub mod Laws
pub mod Equality
use otus_hightload.Prelude.{ℕ, Bool, ◌&&◌, List, [], ◌∷◌, leb, ◌==◌, is_some, length, all, select}
use otus_hightload.Prelude.Text.{Text, lower}
use otus_hightload.Collections.Entries.{Entries, lookup, put, pop}

-- keys: the names in lower case; values: the names as they were last added
pub record NameSet : Type 0 where
  pub entries : Entries Text

unfoldable pub empty : NameSet
empty = record { entries = [] }

unfoldable pub add : Text → NameSet → NameSet
add value s = record { entries = put (lower value) value s.entries }

unfoldable pub discard : Text → NameSet → NameSet
discard value s = record { entries = pop (lower value) s.entries }

unfoldable pub contains : NameSet → Text → Bool
contains s value = is_some (lookup (lower value) s.entries)

values_of : Entries Text → List Text
values_of [] = []
values_of ((k, v) ∷ d) = v ∷ values_of d

-- `list(s)`
unfoldable pub values : NameSet → List Text
unfolding values_of
values s = values_of s.entries

unfoldable pub size : NameSet → ℕ
size s = length s.entries

unfoldable pub add_all : NameSet → List Text → NameSet
add_all s [] = s
add_all s (v ∷ rest) = add_all (add v s) rest

-- `CaseInsensitiveSet(values)`
unfoldable pub from_list : List Text → NameSet
from_list names = add_all empty names

-- `a <= b`
unfoldable pub issubset : NameSet → NameSet → Bool
issubset a b = leb (size a) (size b) && all (contains b) (values a)

-- `a == b`
unfoldable pub same : NameSet → NameSet → Bool
same a b = (size a == size b) && issubset a b

-- `a & b`: the values of `b` that are in `a`
unfoldable pub intersect : NameSet → NameSet → NameSet
intersect a b = from_list (select (contains a) (values b))
