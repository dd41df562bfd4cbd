-- ===== src/Utils/Str.antt =====
-- Python's `str` of a dynamic value, with the `repr` of what a list or a dictionary holds. A float
-- is the text that stands for it, and non-ASCII characters count as printable.
use Prim.Native.Nat.{◌/◌, ◌%◌}
use otus_hightload.Prelude.{
  ℕ, ◌+◌, Bool, true, false, not, ◌&&◌, ◌||◌, ltb, ◌==◌, [], ◌∷◌, ◌++◌, any, if◌then◌else◌,
}
use otus_hightload.Prelude.Text.{Text, codes}
use otus_hightload.Py.{
  Value, null, bool, int, str, arr, dict, Items, nil, cons, Fields, end, field, print_int,
}

hex_digit : ℕ → ℕ
hex_digit n = if ltb n 10 then n + 48 else n + 87

-- one character between quotes `q`
escape : ℕ → ℕ → Text
escape q c =
    if (c == q) || (c == 92)
    then 92 ∷ c ∷ []
    else if c == 10
    then codes "\\n"
    else if c == 13
    then codes "\\r"
    else if c == 9
    then codes "\\t"
    else if ltb c 32 || (c == 127)
    then codes "\\x" ++ hex_digit (c / 16) ∷ hex_digit (c % 16) ∷ []
    else c ∷ []

escape_all : ℕ → Text → Text
escape_all q [] = q ∷ []
escape_all q (c ∷ s) = escape q c ++ escape_all q s

-- a double quote only where there is a single one and no double one
quote_of : Text → ℕ
quote_of s = if any (λ c. c == 39) s && not (any (λ c. c == 34) s) then 34 else 39

unfoldable pub repr_text : Text → Text
unfolding escape_all escape hex_digit quote_of any
repr_text s = quote_of s ∷ escape_all (quote_of s) s

bool_text : Bool → Text
bool_text true = codes "True"
bool_text false = codes "False"

unfoldable mutual
  unfolding bool_text repr_text print_int

  pub repr : Value → Text
  repr null = codes "None"
  repr (bool b) = bool_text b
  repr (int n) = print_int n
  repr (str s) = repr_text s
  repr (arr nil) = codes "[]"
  repr (arr (cons v rest)) = b'[' ∷ repr v ++ repr_items rest
  repr (dict end) = codes "{}"
  repr (dict (field k v rest)) = b'{' ∷ repr_text k ++ codes ": " ++ repr v ++ repr_fields rest

  -- what follows the first item
  repr_items : Items → Text
  repr_items nil = b']' ∷ []
  repr_items (cons v rest) = codes ", " ++ repr v ++ repr_items rest

  -- what follows the first pair
  repr_fields : Fields → Text
  repr_fields end = b'}' ∷ []
  repr_fields (field k v rest) =
      codes ", " ++ repr_text k ++ codes ": " ++ repr v ++ repr_fields rest

-- `str(value)`
unfoldable pub py_str : Value → Text
unfolding repr
py_str (str s) = s
py_str v = repr v
