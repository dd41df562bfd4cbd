-- ===== src/Collections/Entries.antt =====
-- Python's `dict` with text keys as an association list in the order of first insertion.
use otus_hightload.Prelude.{
  ◌+◌, ◌≤◌, true, false, Option, none, some, List, [], ◌∷◌, ◌≡◌, refl, arith, if◌then◌else◌,
  is_some, length,
}
use otus_hightload.Prelude.Text.{Text, text_eq, text_eq_iff, text_eq_refl}

abbrev pub Entries {ℓ} : Type ℓ → Type ℓ
Entries V = List (Text × V)

module _ {ℓ} {V : Type ℓ} where
  -- `d.get(k)`
  unfoldable pub lookup : Text → Entries V → Option V
  lookup k [] = none
  lookup k ((j, v) ∷ d) = let later = lookup k d in if text_eq j k then some v else later

  -- `d[k] = v`
  unfoldable pub put : Text → V → Entries V → Entries V
  put k v [] = (k, v) ∷ []
  put k v ((j, w) ∷ d) = let later = put k v d in if text_eq j k then (j, v) ∷ d else (j, w) ∷ later

  -- `d.pop(k, None)`
  unfoldable pub pop : Text → Entries V → Entries V
  pop k [] = []
  pop k ((j, w) ∷ d) = let later = pop k d in if text_eq j k then d else (j, w) ∷ later

  -- A dictionary has a key once.
  abbrev pub IsDistinct : Entries V → Type 0
  IsDistinct [] = Unit
  IsDistinct ((k, v) ∷ d) = (is_some (lookup k d) ≡ false) × IsDistinct d

  pub lookup-cons :
      (i k : Text) (v : V) (d : Entries V)
      → lookup k ((i, v) ∷ d) ≡ (if text_eq i k then some v else lookup k d)
  unfolding lookup
  lookup-cons i k v d = refl

  pub lookup-put :
      (k j : Text) (v : V) (d : Entries V)
      → lookup j (put k v d) ≡ (if text_eq k j then some v else lookup j d)
  unfolding lookup put
  lookup-put k j v [] = refl
  lookup-put k j v ((i, w) ∷ d) =
      ground (arith, text_eq_iff k j, text_eq_iff i k, text_eq_iff i j, lookup-put k j v d)

  pub put-IsDistinct : (k : Text) (v : V) (d : Entries V) → IsDistinct d → IsDistinct (put k v d)
  unfolding put
  put-IsDistinct k v [] h = (unfold lookup in refl, tt)
  put-IsDistinct k v ((i, w) ∷ d) h =
      ground (arith, lookup-put k i v d, put-IsDistinct k v d h.1, text_eq_iff i k, text_eq_iff k i)

  pub lookup-pop :
      (k j : Text) (d : Entries V)
      → IsDistinct d
      → lookup j (pop k d) ≡ (if text_eq k j then none else lookup j d)
  unfolding lookup pop
  lookup-pop k j [] h = ground arith
  lookup-pop k j ((i, w) ∷ d) h =
      ground (arith, text_eq_iff k j, text_eq_iff i k, text_eq_iff i j, lookup-pop k j d h.1)

  pub pop-IsDistinct : (k : Text) (d : Entries V) → IsDistinct d → IsDistinct (pop k d)
  unfolding pop
  pop-IsDistinct k [] h = tt
  pop-IsDistinct k ((i, w) ∷ d) h =
      ground (arith, lookup-pop k i d h.1, pop-IsDistinct k d h.1, text_eq_iff i k, text_eq_iff k i)

  pub length-put :
      (k : Text) (v : V) (d : Entries V)
      → length (put k v d) ≡ (if is_some (lookup k d) then length d else length d + 1)
  unfolding put lookup
  length-put k v [] = refl
  length-put k v ((i, w) ∷ d) = ground (arith, length-put k v d)

  pub length-pop :
      (k : Text) (d : Entries V)
      → length (pop k d) + (if is_some (lookup k d) then 1 else 0) ≡ length d
  unfolding pop lookup
  length-pop k [] = omega arith
  length-pop k ((i, w) ∷ d) = ground (arith, length-pop k d)

  -- A distinct dictionary whose keys are all keys of another one of the same length has all of them.
  pub same_keys :
      (a b : Entries V)
      → IsDistinct a
      → IsDistinct b
      → length b ≤ length a
      → ((k : Text) → is_some (lookup k a) ≡ true → is_some (lookup k b) ≡ true)
      → (k : Text) → is_some (lookup k b) ≡ true
      → is_some (lookup k a) ≡ true
  same_keys [] [] da db len sub k h = h
  same_keys [] (x ∷ b) da db len sub k h = absurd (omega arith)
  same_keys ((i, v) ∷ a) b da db len sub k h =
      let b' = pop i b in
      let shorter : length b' ≤ length a =
        ground (arith, length-pop i b, sub i, lookup-cons i i v a, text_eq_refl i) in
      let sub' : (j : Text) → is_some (lookup j a) ≡ true → is_some (lookup j b') ≡ true = λ j at.
        ground (arith, lookup-pop i j b db, sub j, lookup-cons i j v a, text_eq_iff i j, da.0) in
      let rest = same_keys a b' da.1 (pop-IsDistinct i b db) shorter sub' k in
      ground (arith, lookup-pop i k b db, lookup-cons i k v a, rest)

  -- A distinct dictionary whose keys are all keys of another one is no longer than that.
  pub length-le_of_keys :
      (a b : Entries V)
      → IsDistinct a
      → IsDistinct b
      → ((k : Text) → is_some (lookup k a) ≡ true → is_some (lookup k b) ≡ true)
      → length a ≤ length b
  length-le_of_keys [] b da db sub = omega arith
  length-le_of_keys ((i, v) ∷ a) b da db sub =
      let sub' : (j : Text) → is_some (lookup j a) ≡ true → is_some (lookup j (pop i b)) ≡ true =
        λ j at.
          ground (arith, lookup-pop i j b db, sub j, lookup-cons i j v a, text_eq_iff i j, da.0) in
      let rest = length-le_of_keys a (pop i b) da.1 (pop-IsDistinct i b db) sub' in
      ground (arith, rest, length-pop i b, sub i, lookup-cons i i v a, text_eq_refl i)
