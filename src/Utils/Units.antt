-- ===== src/Utils/Units.antt =====
-- `get_conversion_table`, `convert_to_base_unit` and `parse_int` with a base unit of utils.py. The
-- numbers are exact ratios where the source computes with doubles.
use Prim.Native.Nat.{◌*◌, ◌^◌}
use otus_hightload.Prelude.{
  ℕ, suc, Bool, true, false, Option, none, some, List, [], ◌∷◌, if◌then◌else◌,
}
use otus_hightload.Prelude.Int.{ℤ, pos, negsuc}
use otus_hightload.Prelude.Text.{Text, codes, text_eq, mem_text, strip, non_empty}
use otus_hightload.Utils.Number.{strtol, strtod, Decimal, round_half, floats_on, signed}

pub record Ratio : Type 0 where
  pub negative : Bool
  pub num : ℕ
  pub den : ℕ

abbrev pub Table : Type 0
Table = List (Text × ℕ)

-- The entry of a unit and a base unit is the quotient of their sizes: in bytes, in microseconds.
unfoldable pub memory_units : Table
memory_units =
    (codes "TB", 1099511627776)
    ∷ (codes "GB", 1073741824)
    ∷ (codes "MB", 1048576)
    ∷ (codes "kB", 1024)
    ∷ (codes "B", 1)
    ∷ []

unfoldable pub time_units : Table
time_units =
    (codes "d", 86400000000)
    ∷ (codes "h", 3600000000)
    ∷ (codes "min", 60000000)
    ∷ (codes "s", 1000000)
    ∷ (codes "ms", 1000)
    ∷ (codes "us", 1)
    ∷ []

unfoldable pub conversion_table : Text → Table
unfolding memory_units time_units
conversion_table base =
    if mem_text base (codes "B" ∷ codes "kB" ∷ codes "MB" ∷ [])
    then memory_units
    else if mem_text base (codes "ms" ∷ codes "s" ∷ codes "min" ∷ [])
    then time_units
    else []

-- the size of a unit
size_in : Text → Table → Option ℕ
size_in unit [] = none
size_in unit ((u, n) ∷ rest) =
    let later = size_in unit rest in if text_eq u unit then some n else later

-- the size of the unit that stands behind this one
next_size : Text → Table → Option ℕ
next_size unit [] = none
next_size unit ((u, n) ∷ []) = none
next_size unit ((u, n) ∷ (v, m) ∷ rest) =
    let later = next_size unit ((v, m) ∷ rest) in if text_eq u unit then some m else later

-- a multiple of the next unit, in base units of this size
round_to : Option ℕ → ℕ → Ratio → Ratio
round_to none base r = r
round_to (some multiplier) base r = record r {
  num = round_half (r.num * base) (r.den * multiplier) * multiplier;
  den = base;
}

scale : Text → Table → Option ℕ → Option ℕ → ℕ → Ratio → Option Ratio
scale unit table (some size) (some base) divisor r = some (
    round_to (next_size unit table) base
      (record r { num = r.num * size; den = r.den * base * divisor }))
scale unit table _ _ divisor r = none

-- A base unit is written with no number, or with a positive one.
with_base : Ratio → Text → Option ℤ × Text → Option Ratio
with_base r unit (some (pos (suc n)), base) =
    let table = conversion_table base in
    scale unit table (size_in unit table) (size_in base table) (suc n) r
with_base r unit _ = none

unfoldable pub convert_to_base_unit : Ratio → Text → Text → Option Ratio
unfolding with_base scale round_to next_size size_in conversion_table
convert_to_base_unit r unit base_unit = with_base r unit (strtol base_unit false)

unfoldable pub round_ratio : Ratio → ℤ
round_ratio r = signed r.negative (round_half r.num r.den)

of_int : ℤ → Ratio
of_int (pos n) = record { negative = false; num = n; den = 1 }
of_int (negsuc n) = record { negative = true; num = suc n; den = 1 }

of_decimal : Decimal → Ratio
of_decimal d = elim d.exponent [
  | pos e ↦ record { negative = d.negative; num = d.digits * 10 ^ e; den = 1 }
  | negsuc e ↦ record { negative = d.negative; num = d.digits; den = 10 ^ suc e }
]

rounded : Option Ratio → Option ℤ
rounded none = none
rounded (some r) = some (round_ratio r)

finish : Text → Option Ratio → Text → Option ℤ
finish base none unit = none
finish base (some r) unit =
    if non_empty (strip unit)
    then rounded (convert_to_base_unit r (strip unit) base)
    else some (round_ratio r)

int_ratio : Option ℤ → Option Ratio
int_ratio none = none
int_ratio (some n) = some (of_int n)

decimal_ratio : Option Decimal → Option Ratio
decimal_ratio none = none
decimal_ratio (some d) = some (of_decimal d)

-- `parse_int(text, base_unit)`
unfoldable pub parse_int_unit : Text → Text → Option ℤ
unfolding finish rounded int_ratio decimal_ratio of_int of_decimal
parse_int_unit text base =
    let (val, unit) = strtol text true in
    let (val', unit') = strtod text in
    if floats_on unit
    then finish base (decimal_ratio val') unit'
    else finish base (int_ratio val) unit
