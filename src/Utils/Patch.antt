-- ===== src/Utils/Patch.antt =====
-- `patch_config` and `deep_compare` of utils.py. The dictionary that is patched in place is a result.
use otus_hightload.Prelude.{
  Bool, true, false, ◌&&◌, ◌||◌, Option, none, some, Bool-cases, inl, inr, ◌≡◌, refl, ap, arith,
  if◌then◌else◌,
}
use otus_hightload.Prelude.Text.{Text, text_eq}
use otus_hightload.Py.{Value, null, bool, int, str, arr, dict, Fields, end, field, get, has}
use otus_hightload.Utils.Str.{py_str}

-- `config[name] = value`
unfoldable pub set_field : Text → Value → Fields → Fields
set_field name v end = field name v end
set_field name v (field k w rest) =
    let later = set_field name v rest in if text_eq k name then field k v rest else field k w later

-- `config.pop(name, None)`
unfoldable pub pop_field : Text → Fields → Fields
pop_field name end = end
pop_field name (field k w rest) =
    let later = pop_field name rest in if text_eq k name then rest else field k w later

is_held : Option Value → Bool
is_held none = false
is_held (some null) = false
is_held (some _) = true

-- a value that is neither null nor a dictionary
set_scalar : Text → Value → Fields → Option Value → Fields × Bool
set_scalar name v config none = (set_field name v config, true)
set_scalar name v config (some old) =
    if text_eq (py_str old) (py_str v) then (config, false) else (set_field name v config, true)

-- a dictionary, with what patching gives where the old value is one too
set_dict : Text → Fields → Fields → Option Value → (Fields → Fields × Bool) → Fields × Bool
set_dict name d config (some (dict old)) patch =
    let (new, changed) = patch old in (set_field name (dict new) config, changed)
set_dict name d config _ patch = (set_field name (dict d) config, true)

and_then : Fields × Bool → (Fields → Fields × Bool) → Fields × Bool
and_then (config, changed) f = let (config', later) = f config in (config', changed || later)

unfoldable pub patch_config : Fields → Fields → Fields × Bool
unfolding and_then set_dict set_scalar is_held
patch_config config end = (config, false)
patch_config config (field name null rest) =
    and_then (pop_field name config, is_held (get name config)) (λ c. patch_config c rest)
patch_config config (field name (dict d) rest) =
    and_then (set_dict name d config (get name config) (λ c. patch_config c d))
      (λ c. patch_config c rest)
patch_config config (field name (bool b) rest) =
    and_then (set_scalar name (bool b) config (get name config)) (λ c. patch_config c rest)
patch_config config (field name (int n) rest) =
    and_then (set_scalar name (int n) config (get name config)) (λ c. patch_config c rest)
patch_config config (field name (str s) rest) =
    and_then (set_scalar name (str s) config (get name config)) (λ c. patch_config c rest)
patch_config config (field name (arr xs) rest) =
    and_then (set_scalar name (arr xs) config (get name config)) (λ c. patch_config c rest)

-- every key of the first is one of the second
unfoldable pub keys_in : Fields → Fields → Bool
keys_in end b = true
keys_in (field k v rest) b = has k b && keys_in rest b

same_scalar : Value → Option Value → Bool
same_scalar v none = false
same_scalar v (some w) = text_eq (py_str v) (py_str w)

same_dict : (Fields → Bool) → Option Value → Bool
same_dict same (some (dict d)) = same d
same_dict same _ = false

-- the values of the first at the keys of the second
unfoldable pub values_in : Fields → Fields → Bool
unfolding keys_in same_dict same_scalar
values_in end b = true
values_in (field k (dict d) rest) b =
    same_dict (λ e. keys_in d e && keys_in e d && values_in d e) (get k b) && values_in rest b
values_in (field k null rest) b = same_scalar null (get k b) && values_in rest b
values_in (field k (bool v) rest) b = same_scalar (bool v) (get k b) && values_in rest b
values_in (field k (int v) rest) b = same_scalar (int v) (get k b) && values_in rest b
values_in (field k (str v) rest) b = same_scalar (str v) (get k b) && values_in rest b
values_in (field k (arr v) rest) b = same_scalar (arr v) (get k b) && values_in rest b

unfoldable pub deep_compare : Fields → Fields → Bool
deep_compare a b = keys_in a b && keys_in b a && values_in a b

-- whether a null is stored, at any depth of dictionaries
unfoldable pub has_null : Fields → Bool
has_null end = false
has_null (field k null rest) = true
has_null (field k (dict d) rest) = has_null d || has_null rest
has_null (field k (bool v) rest) = has_null rest
has_null (field k (int v) rest) = has_null rest
has_null (field k (str v) rest) = has_null rest
has_null (field k (arr v) rest) = has_null rest

or_left : (a b : Bool) → (a || b) ≡ false → a ≡ false
or_left a b h = ground arith

or_right : (a b : Bool) → (a || b) ≡ false → b ≡ false
or_right a b h = ground arith

pop_missing :
    (name : Text) (config : Fields)
    → is_held (get name config) ≡ false
    → has_null config ≡ false
    → pop_field name config ≡ config
unfolding pop_field get has_null is_held
pop_missing name end h clean = refl
pop_missing name (field k null rest) h clean = cc
pop_missing name (field k (dict d) rest) h clean = elim (Bool-cases (text_eq k name)) [
  | inl e ↦ cc (rw e at h)
  | inr e ↦ rw e (
      ap (field k (dict d))
        (pop_missing name rest (rw e at h) (or_right (has_null d) (has_null rest) clean)))
]
pop_missing name (field k w rest) h clean = ground (arith, pop_missing name rest)

set-get :
    (name : Text) (v : Value) (config : Fields)
    → get name config ≡ some v
    → set_field name v config ≡ config
unfolding set_field get
set-get name v end h = cc
set-get name v (field k w rest) h = ground (arith, set-get name v rest)

nested_clean :
    (name : Text) (config d : Fields)
    → get name config ≡ some (dict d)
    → has_null config ≡ false
    → has_null d ≡ false
unfolding get has_null
nested_clean name end d h clean = cc
nested_clean name (field k null rest) d h clean = cc
nested_clean name (field k (dict c) rest) d h clean = elim (Bool-cases (text_eq k name)) [
  | inl e ↦
      let same : c ≡ d = cc (rw e at h) in rw (← same) (or_left (has_null c) (has_null rest) clean)
  | inr e ↦ nested_clean name rest d (rw e at h) (or_right (has_null c) (has_null rest) clean)
]
nested_clean name (field k w rest) d h clean = ground (arith, nested_clean name rest d)

-- A step that reports no change has made none, and neither has the rest.
and_then_same :
    (config : Fields) (step : Fields × Bool) (f : Fields → Fields × Bool)
    → (and_then step f).1 ≡ false
    → (step.1 ≡ false → step.0 ≡ config)
    → ((f config).1 ≡ false → (f config).0 ≡ config)
    → (and_then step f).0 ≡ config
unfolding and_then
and_then_same config (c, b) f h first rest =
    let e = first (or_left b (f c).1 h) in rw e (rest (rw e at (or_right b (f c).1 h)))

set_scalar_same :
    (name : Text) (v : Value) (config : Fields) (o : Option Value)
    → (set_scalar name v config o).1 ≡ false
    → (set_scalar name v config o).0 ≡ config
unfolding set_scalar
set_scalar_same name v config none h = cc
set_scalar_same name v config (some old) h = ground arith

set_dict_same :
    (name : Text) (d config : Fields) (o : Option Value) (patch : Fields → Fields × Bool)
    → get name config ≡ o
    → ((c : Fields) → has_null c ≡ false → (patch c).1 ≡ false → (patch c).0 ≡ c)
    → has_null config ≡ false
    → (set_dict name d config o patch).1 ≡ false
    → (set_dict name d config o patch).0 ≡ config
unfolding set_dict
set_dict_same name d config (some (dict old)) patch found same clean h =
    let kept = same old (nested_clean name config old found clean) h in
    rw kept (set-get name (dict old) config found)
set_dict_same name d config _ patch found same clean h = cc

-- Where the configuration stores no null, a patch that is reported to change nothing leaves the
-- configuration as it is.
pub patch_unchanged :
    (config update : Fields)
    → has_null config ≡ false
    → (patch_config config update).1 ≡ false
    → (patch_config config update).0 ≡ config
unfolding patch_config
patch_unchanged config end clean h = refl
patch_unchanged config (field name null rest) clean h =
    and_then_same config _ (λ c. patch_config c rest) h (λ e. pop_missing name config e clean)
      (patch_unchanged config rest clean)
patch_unchanged config (field name (dict d) rest) clean h =
    and_then_same config _ (λ c. patch_config c rest) h
      (set_dict_same name d config (get name config) (λ c. patch_config c d) refl
        (λ c. patch_unchanged c d) clean)
      (patch_unchanged config rest clean)
patch_unchanged config (field name v rest) clean h =
    and_then_same config _ (λ c. patch_config c rest) h
      (set_scalar_same name v config (get name config)) (patch_unchanged config rest clean)
