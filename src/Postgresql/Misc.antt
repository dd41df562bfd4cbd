-- ===== src/Postgresql/Misc.antt =====
-- `postgres_version_to_int`, `postgres_major_version_to_int` and `parse_lsn` of postgresql/misc.py, with
-- the `int` of Python on texts of ASCII.
use Prim.Native.Nat.{◌*◌}
use otus_hightload.Prelude.{
  ℕ, ◌+◌, Bool, true, false, ◌&&◌, ◌||◌, ltb, ◌==◌, Option, none, some, List, [], ◌∷◌, ◌++◌,
  if◌then◌else◌,
}
use otus_hightload.Prelude.Int.{ℤ, pos, ltb_ℤ, ◌*ℤ◌, ◌+ℤ◌}
use otus_hightload.Prelude.Text.{Text, codes, strip, split}
use otus_hightload.Py.{print_int}
use otus_hightload.Utils.{digit, read_sign, signed}

-- digits with single underscores between them; `after` tells whether the last character was a digit
int_digits : ℕ → ℕ → Bool → Text → Option ℕ
int_digits base acc after [] = if after then some acc else none
int_digits base acc after (c ∷ s) = elim (digit base c) [
  | some d ↦ int_digits base (acc * base + d) true s
  | none ↦ if (c == b'_') && after then int_digits base acc false s else none
]

with_sign : Bool → Option ℕ → Option ℤ
with_sign negative none = none
with_sign negative (some n) = some (signed negative n)

-- `0x` before the digits of base 16, which an underscore may follow
drop_base : Text → Text × Bool
drop_base (z ∷ x ∷ c ∷ s) =
    if (z == b'0') && ((x == b'x') || (x == b'X')) then (c ∷ s, true) else (z ∷ x ∷ c ∷ s, false)
drop_base s = (s, false)

-- `int(s, base)` for the bases 10 and 16
unfoldable pub int_of : ℕ → Text → Option ℤ
unfolding int_digits with_sign drop_base
int_of base s =
    let (negative, body) = read_sign (strip s) in
    let (digits, dropped) = drop_base body in
    if base == 16
    then with_sign negative (int_digits base 0 dropped digits)
    else with_sign negative (int_digits base 0 false body)

-- the integers, none where one of the texts is no integer
unfoldable pub all_ints : List Text → Option (List ℤ)
all_ints [] = some []
all_ints (s ∷ rest) = elim (int_of 10 s) [
  | none ↦ none
  | some n ↦ elim (all_ints rest) [ none ↦ none | some ns ↦ some (n ∷ ns) ]
]

-- `'{0:02d}'.format(n)`
two_digits : ℤ → Text
two_digits (pos n) = if ltb n 10 then b'0' ∷ print_int (pos n) else print_int (pos n)
two_digits n = print_int n

concat_digits : List ℤ → Text
concat_digits [] = []
concat_digits (n ∷ rest) = two_digits n ++ concat_digits rest

pub data Version : Type 0 where
  version : ℤ → Version
  invalid_version : Version
  invalid_format : Version
  value_error : Version

of_int : Option ℤ → Version
of_int none = value_error
of_int (some n) = version n

of_components : List ℤ → Version
of_components (major ∷ minor ∷ []) =
    if ltb_ℤ major (pos 10)
    then invalid_format
    else of_int (int_of 10 (concat_digits (major ∷ pos 0 ∷ minor ∷ [])))
of_components (a ∷ b ∷ c ∷ []) = of_int (int_of 10 (concat_digits (a ∷ b ∷ c ∷ [])))
of_components _ = invalid_format

of_ints : Option (List ℤ) → Version
of_ints none = invalid_version
of_ints (some components) = of_components components

unfoldable pub postgres_version_to_int : Text → Version
unfolding of_ints of_components of_int concat_digits two_digits
postgres_version_to_int pg_version = of_ints (all_ints (split b'.' pg_version))

unfoldable pub postgres_major_version_to_int : Text → Version
postgres_major_version_to_int pg_version = postgres_version_to_int (pg_version ++ codes ".0")

lsn_of : Option ℤ → Option ℤ → Option ℤ
lsn_of (some high) (some low) = some (high *ℤ pos 4294967296 +ℤ low)
lsn_of _ _ = none

lsn_parts : List Text → Option ℤ
lsn_parts (high ∷ low ∷ rest) = lsn_of (int_of 16 high) (int_of 16 low)
lsn_parts _ = none

-- `none` is an exception
unfoldable pub parse_lsn : Text → Option ℤ
unfolding lsn_parts lsn_of
parse_lsn lsn = lsn_parts (split b'/' lsn)
