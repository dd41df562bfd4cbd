-- ===== src/Collections/NameDict.antt =====
-- `CaseInsensitiveDict` of collections.py: the entry of a key in lower case holds the key as it
-- was last written, and the value.
pub mod Laws
use otus_hightload.Prelude.{ℕ, Bool, Option, none, some, List, [], ◌∷◌, is_some, length, map}
use otus_hightload.Prelude.Text.{Text, lower}
use otus_hightload.Collections.Entries.{Entries, lookup, put, pop}

pub record NameDict {ℓ} (V : Type ℓ) : Type ℓ where
  pub entries : Entries (Text × V)

module _ {ℓ} {V : Type ℓ} where
  unfoldable pub no_entries : NameDict V
  no_entries = record { entries = [] }

  -- `d[key] = value`
  unfoldable pub setitem : Text → V → NameDict V → NameDict V
  setitem key value d = record { entries = put (lower key) (key, value) d.entries }

  value_of : Option (Text × V) → Option V
  value_of none = none
  value_of (some (k, v)) = some v

  -- `d.get(key)`; `none` is a missing key
  unfoldable pub getitem : NameDict V → Text → Option V
  unfolding value_of
  getitem d key = value_of (lookup (lower key) d.entries)

  -- `key in d`
  unfoldable pub has_key : NameDict V → Text → Bool
  has_key d key = is_some (getitem d key)

  -- `del d[key]`; `none` is its `KeyError`
  unfoldable pub delitem : Text → NameDict V → Option (NameDict V)
  delitem key d = elim (lookup (lower key) d.entries) [
    | none ↦ none
    | some _ ↦ some (record { entries = pop (lower key) d.entries })
  ]

  -- `list(d)`: the keys as they were last written
  unfoldable pub spelled_keys : NameDict V → List Text
  spelled_keys d = map (λ e. e.1.0) d.entries

  -- `d.keys()`: those of the dictionary beneath, in lower case
  unfoldable pub keys : NameDict V → List Text
  keys d = map (λ e. e.0) d.entries

  unfoldable pub count : NameDict V → ℕ
  count d = length d.entries

  update_all : NameDict V → Entries V → NameDict V
  update_all d [] = d
  update_all d ((k, v) ∷ rest) = update_all (setitem k v d) rest

  -- `CaseInsensitiveDict(data)`
  unfoldable pub from_entries : Entries V → NameDict V
  unfolding update_all
  from_entries pairs = update_all no_entries pairs
