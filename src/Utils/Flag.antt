-- ===== src/Utils/Flag.antt =====
-- `parse_bool` of utils.py
use otus_hightload.Prelude.{Bool, true, false, Option, none, some, List, [], ◌∷◌, if◌then◌else◌}
use otus_hightload.Prelude.Text.{Text, codes, lower, mem_text}
use otus_hightload.Py.{Value, null, bool, int, str, arr, dict, print_int}

-- `str(value)`. The text of a list or of a dictionary begins with a bracket, so it is neither a
-- word of `parse_bool` nor a number: `none` stands for it.
unfoldable pub scalar_str : Value → Option Text
unfolding print_int
scalar_str null = some (codes "None")
scalar_str (bool true) = some (codes "True")
scalar_str (bool false) = some (codes "False")
scalar_str (int n) = some (print_int n)
scalar_str (str s) = some s
scalar_str (arr xs) = none
scalar_str (dict d) = none

abbrev pub true_words : List Text
true_words = codes "on" ∷ codes "true" ∷ codes "yes" ∷ codes "1" ∷ []

abbrev pub false_words : List Text
false_words = codes "off" ∷ codes "false" ∷ codes "no" ∷ codes "0" ∷ []

parse_word : Text → Option Bool
parse_word s =
    if mem_text s true_words then some true else if mem_text s false_words then some false else none

parse_scalar : Option Text → Option Bool
parse_scalar none = none
parse_scalar (some s) = parse_word (lower s)

unfoldable pub parse_bool : Value → Option Bool
unfolding scalar_str parse_word parse_scalar lower mem_text
parse_bool value = parse_scalar (scalar_str value)
