-- ===== src/Py.antt =====
-- The dynamic values of the program: what `json.loads`, the YAML configuration and the tags hold.
-- A float is represented by the text that Python prints for it. A dictionary is an association
-- list whose keys are texts.
use otus_hightload.Prelude.{
  ℕ, zero, suc, ◌+◌, Bool, true, false, Option, none, some, [], ◌∷◌, ◌==◌, if◌then◌else◌, is_some,
}
use otus_hightload.Prelude.Int.{ℤ, pos, negsuc}
use otus_hightload.Prelude.Text.{Text, text_eq, non_empty}
use Prim.Native.Nat.{◌/◌, ◌%◌}

mutual
  pub data Value : Type 0 where
    null : Value
    bool : Bool → Value
    int : ℤ → Value
    str : Text → Value
    arr : Items → Value
    dict : Fields → Value

  pub data Items : Type 0 where
    nil : Items
    cons : Value → Items → Items

  pub data Fields : Type 0 where
    end : Fields
    field : Text → Value → Fields → Fields

-- `d.get(key)`; a missing key is `none`
unfoldable pub get : Text → Fields → Option Value
get key end = none
get key (field k v rest) = let later = get key rest in if text_eq k key then some v else later

-- `key in d`
unfoldable pub has : Text → Fields → Bool
has key d = is_some (get key d)

-- `d.get(key)` where the caller does not tell a missing key from `None`
abbrev pub or_null : Option Value → Value
or_null none = null
or_null (some v) = v

-- `bool(v)`
abbrev pub truthy : Value → Bool
truthy null = false
truthy (bool b) = b
truthy (int (pos zero)) = false
truthy (int _) = true
truthy (str s) = non_empty s
truthy (arr nil) = false
truthy (arr (cons _ _)) = true
truthy (dict end) = false
truthy (dict (field _ _ _)) = true

-- the decimal digits of `n`, before `acc`; `fuel` above `n` is enough
unfoldable pub print_nat : ℕ → ℕ → Text → Text
print_nat zero n acc = acc
print_nat (suc fuel) n acc =
    let acc' = (48 + n % 10) ∷ acc in
    let rest = print_nat fuel (n / 10) acc' in if n / 10 == 0 then acc' else rest

unfoldable pub print_int : ℤ → Text
unfolding print_nat
print_int (pos n) = print_nat (suc n) n []
print_int (negsuc n) = b'-' ∷ print_nat (suc (suc n)) (suc n) []
