-- ===== src/Scenarios/Names.antt =====
-- Sets of names at concrete inputs.
use otus_hightload.Prelude.{true, [], ◌∷◌, ◌≡◌, ◌↔◌}
use otus_hightload.Prelude.Text.{Text, codes}
use otus_hightload.Collections.NameSet.{NameSet, contains, from_list, same}
use otus_hightload.Collections.NameSet.Laws.{from_list-IsValid}
use otus_hightload.Collections.NameSet.Equality.{same_iff}

abbrev small : NameSet
small = from_list (codes "a" ∷ codes "B" ∷ [])

abbrev big : NameSet
big = from_list (codes "b" ∷ codes "A" ∷ [])

same_iff_example : (same small big ≡ true) ↔ ((w : Text) → contains small w ≡ contains big w)
same_iff_example =
    same_iff small big (from_list-IsValid (codes "a" ∷ codes "B" ∷ []))
      (from_list-IsValid (codes "b" ∷ codes "A" ∷ []))
