-- ===== src/Collections/NameDict/Laws.antt =====
-- The dictionary of collections.py under its operations: a key is found in any case of its letters.
use otus_hightload.Prelude.{
  [], ◌∷◌, is_some, ◌||◌, sym, ◌∙◌, any, map, Bool, true, false, Option, none, some, ◌≡◌, refl,
  arith, if◌then◌else◌,
}
use otus_hightload.Prelude.Text.{
  Text, lower, text_eq, text_eq_iff, text_eq_refl, lower_idem, spells,
}
use otus_hightload.Collections.Entries.{Entries, lookup, IsDistinct, lookup-put, lookup-pop}
use otus_hightload.Collections.NameDict.{
  no_entries, has_key, NameDict, setitem, getitem, delitem, value_of, keys,
}

module _ {ℓ} {V : Type ℓ} where
  value_of-if :
      (b : Bool) (x y : Option (Text × V))
      → value_of (if b then x else y) ≡ (if b then value_of x else value_of y)
  value_of-if true x y = refl
  value_of-if false x y = refl

  -- A value that was set is found under every spelling of its key, and the other keys keep theirs.
  pub getitem-setitem :
      (d : NameDict V) (k j : Text) (v : V)
      → getitem (setitem k v d) j ≡ (if text_eq (lower k) (lower j) then some v else getitem d j)
  unfolding getitem setitem value_of
  getitem-setitem d k j v = ground (arith, lookup-put (lower k) (lower j) (k, v) d.entries)

  -- `del` on a dictionary with distinct keys removes the key in every spelling, and no other.
  pub getitem-delitem :
      (d e : NameDict V) (k j : Text)
      → IsDistinct d.entries
      → delitem k d ≡ some e
      → getitem e j ≡ (if text_eq (lower k) (lower j) then none else getitem d j)
  unfolding getitem delitem value_of
  getitem-delitem d e k j h at = ground (arith, lookup-pop (lower k) (lower j) d.entries h)

  -- A key is there after a value was set exactly if it was there or is the key that was set.
  pub has_key-setitem :
      (d : NameDict V) (k j : Text) (v : V)
      → has_key (setitem k v d) j ≡ (text_eq (lower k) (lower j) || has_key d j)
  unfolding has_key
  has_key-setitem d k j v = ground (arith, getitem-setitem d k j v)

  pub has_key-lookup :
      (d : NameDict V) (k : Text) → has_key d k ≡ is_some (lookup (lower k) d.entries)
  unfolding has_key getitem value_of
  has_key-lookup d k = ground arith

  spells_keys :
      (d : Entries (Text × V)) (w : Text)
      → is_some (lookup (lower w) d) ≡ true
      → spells w (map (λ e. e.0) d) ≡ true
  unfolding lookup any
  spells_keys [] w h = absurd (ground arith)
  spells_keys ((k, e) ∷ d) w h =
      let ih = spells_keys d w in
      ground (arith, ih, text_eq_iff k (lower w), lower_idem w, text_eq_refl (lower w))

  -- `keys()` lists every key of the dictionary, though in lower case.
  pub spells-keys : (d : NameDict V) (w : Text) → has_key d w ≡ true → spells w (keys d) ≡ true
  unfolding keys
  spells-keys d w h = spells_keys d.entries w (sym (has_key-lookup d w) ∙ h)

pub has_key-no_entries {ℓ} : (V : Type ℓ) (k : Text) → has_key {V = V} no_entries k ≡ false
unfolding has_key getitem value_of no_entries lookup
has_key-no_entries V k = refl
