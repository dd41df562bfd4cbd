-- ===== src/Collections/NameSet/Equality.antt =====
-- `==` of the case-insensitive set of collections.py, which compares sizes and then the members
-- one way, is equality of the sets.
use otus_hightload.Prelude.{
  ◌≤◌, true, ◌≡◌, ◌↔◌, arith, is_some, [], ◌∷◌, inl, inr, sym, ◌∙◌, Bool-cases, all, all_of_mem,
}
use otus_hightload.Prelude.Text.{Text, lower, lower_idem, text_eq, text_eq_iff}
use otus_hightload.Collections.Entries.{Entries, lookup, same_keys, length-le_of_keys}
use otus_hightload.Collections.NameSet.{NameSet, contains, size, values, issubset, same}
use otus_hightload.Collections.NameSet.Laws.{
  IsValid, IsFolded, spells_of_mem, contains-values, issubset_sound,
}

key-IsFolded :
    (d : Entries Text) (k : Text) → IsFolded d → is_some (lookup k d) ≡ true → lower k ≡ k
unfolding lookup
key-IsFolded [] k h at = cc
key-IsFolded ((i, v) ∷ d) k h at = elim (Bool-cases (text_eq i k)) [
  | inl e ↦ let key = (text_eq_iff i k).0 e in rw (← key, h.0) (lower_idem v)
  | inr e ↦ key-IsFolded d k h.1 (ground arith)
]

subset_keys :
    (a b : NameSet)
    → IsValid a
    → ((w : Text) → contains a w ≡ true → contains b w ≡ true)
    → (k : Text) → is_some (lookup k a.entries) ≡ true
    → is_some (lookup k b.entries) ≡ true
unfolding contains
subset_keys a b va sub k at =
    let folded = key-IsFolded a.entries k va.folded at in
    let there : is_some (lookup (lower k) b.entries) ≡ true = sub k (rw folded at) in
    rw folded at there

keys_length :
    (a b : NameSet)
    → IsValid a
    → IsValid b
    → ((w : Text) → contains a w ≡ true → contains b w ≡ true)
    → size a ≤ size b
unfolding size
keys_length a b va vb sub =
    length-le_of_keys a.entries b.entries va.distinct vb.distinct (subset_keys a b va sub)

module _ (a b : NameSet) (va : IsValid a) (vb : IsValid b) where
  same_sound : same a b ≡ true → (w : Text) → contains a w ≡ contains b w
  unfolding same issubset size
  same_sound h w =
      let sub = issubset_sound a b va (ground arith) in
      let back =
        same_keys a.entries b.entries va.distinct vb.distinct (ground arith)
          (subset_keys a b va sub) (lower w) in
      unfold contains in ground (arith, sub w, back)

  values_in : ((w : Text) → contains a w ≡ contains b w) → all (contains b) (values a) ≡ true
  values_in e =
      all_of_mem (contains b) (values a)
        λ v m. sym (e v) ∙ (contains-values a v va ∙ spells_of_mem v (values a) m)

  same_complete : ((w : Text) → contains a w ≡ contains b w) → same a b ≡ true
  unfolding same issubset size
  same_complete e =
      let ab = keys_length a b va vb (λ w at. sym (e w) ∙ at) in
      let ba = keys_length b a vb va (λ w at. e w ∙ at) in ground (arith, values_in e, ab, ba)

-- Two valid sets compare equal exactly when they contain the same names.
pub same_iff :
    (a b : NameSet)
    → IsValid a
    → IsValid b
    → (same a b ≡ true) ↔ ((w : Text) → contains a w ≡ contains b w)
same_iff a b va vb = (same_sound a b va vb, same_complete a b va vb)
