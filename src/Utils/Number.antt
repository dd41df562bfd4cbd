-- ===== src/Utils/Number.antt =====
-- `strtol`, `strtod` and `parse_int` of utils.py, for values without a base unit. A fraction is
-- kept as an exact decimal where the source reads a double.
use otus_hightload.Prelude.{
  ℕ, zero, suc, ◌+◌, ◌-◌, ◌*◌, ◌/◌, ◌%◌, ◌^◌, Bool, true, false, not, ◌&&◌, ◌||◌, Option, none,
  some, [], ◌∷◌, ltb, leb, ◌==◌, if◌then◌else◌,
}
use otus_hightload.Prelude.Int.{ℤ, pos, negsuc, ◌-ℤ◌}
use otus_hightload.Prelude.Text.{Text, strip, non_empty}
use otus_hightload.Py.{Value}
use otus_hightload.Utils.Flag.{scalar_str}

-- the value of a digit, if `c` is one in this base
unfoldable pub digit : ℕ → ℕ → Option ℕ
digit base c =
    let v =
      if leb b'0' c && leb c b'9'
      then c - 48
      else if leb b'a' c && leb c b'f'
      then c - 87
      else if leb b'A' c && leb c b'F'
      then c - 55
      else 99 in
    if ltb v base then some v else none

-- the longest run of digits: its value after `acc`, its length after `count`, and what follows
read_digits : ℕ → ℕ → ℕ → Text → ℕ × ℕ × Text
read_digits base acc count [] = (acc, count, [])
read_digits base acc count (c ∷ s) = elim (digit base c) [
  | none ↦ (acc, count, c ∷ s)
  | some v ↦ read_digits base (acc * base + v) (suc count) s
]

unfoldable pub signed : Bool → ℕ → ℤ
signed false n = pos n
signed true zero = pos 0
signed true (suc n) = negsuc n

-- `[-+]?`
unfoldable pub read_sign : Text → Bool × Text
read_sign [] = (false, [])
read_sign (c ∷ s) =
    if c == b'-' then (true, s) else if c == b'+' then (false, s) else (false, c ∷ s)

-- DEC_RE past the sign; a leading zero was taken by OCT_RE
read_dec : Text → Option (ℕ × Text)
read_dec s =
    let (n, count, rest) = read_digits 10 0 0 s in if count == 0 then none else some (n, rest)

-- OCT_RE past the sign
read_oct : Text → Option (ℕ × Text)
read_oct [] = none
read_oct (c ∷ s) =
    let (n, _, rest) = read_digits 8 0 0 s in if c == b'0' then some (n, rest) else read_dec (c ∷ s)

-- HEX_RE past the sign, and the others after it
read_hex : Text → Option (ℕ × Text)
read_hex (z ∷ x ∷ s) =
    let (n, count, rest) = read_digits 16 0 0 s in
    if z == b'0' && x == b'x' && not (count == 0) then some (n, rest) else read_oct (z ∷ x ∷ s)
read_hex s = read_oct s

with_sign : Bool → Text → Bool → Option (ℕ × Text) → Option ℤ × Text
with_sign strict value negative none = (if strict then none else some (pos 1), value)
with_sign strict value negative (some (n, rest)) = (some (signed negative n), rest)

unfoldable pub strtol : Text → Bool → Option ℤ × Text
unfolding read_hex read_oct read_dec read_digits digit read_sign signed with_sign strip
strtol text strict =
    let value = strip text in
    let (negative, body) = read_sign value in with_sign strict value negative (read_hex body)

-- digits * 10 ^ exponent
pub record Decimal : Type 0 where
  pub negative : Bool
  pub digits : ℕ
  pub exponent : ℤ

-- `([eE][-+]?[0-9]+)?` after a mantissa with `scale` digits behind the point
read_exponent : Bool → ℕ → ℕ → Text → Decimal × Text
read_exponent neg m scale [] =
    (record { negative = neg; digits = m; exponent = pos 0 -ℤ pos scale }, [])
read_exponent neg m scale (c ∷ s) =
    let (eneg, body) = read_sign s in
    let (e, count, rest) = read_digits 10 0 0 body in
    if (c == b'e' || c == b'E') && not (count == 0)
    then (record { negative = neg; digits = m; exponent = signed eneg e -ℤ pos scale }, rest)
    else (record { negative = neg; digits = m; exponent = pos 0 -ℤ pos scale }, c ∷ s)

-- `[0-9]*\.?[0-9]+` after its first run of digits
read_fraction : Bool → ℕ → ℕ → Text → Option (Decimal × Text)
read_fraction neg m count [] = if count == 0 then none else some (read_exponent neg m 0 [])
read_fraction neg m count (c ∷ s) =
    let (m', scale, rest) = read_digits 10 m 0 s in
    if c == b'.' && not (scale == 0)
    then some (read_exponent neg m' scale rest)
    else if count == 0
    then none
    else some (read_exponent neg m 0 (c ∷ s))

read_double : Text → Option (Decimal × Text)
read_double value =
    let (neg, body) = read_sign value in
    let (m, count, rest) = read_digits 10 0 0 body in read_fraction neg m count rest

or_text : Text → Option (Decimal × Text) → Option Decimal × Text
or_text value none = (none, value)
or_text value (some (d, rest)) = (some d, rest)

unfoldable pub strtod : Text → Option Decimal × Text
unfolding read_double read_fraction read_exponent read_digits digit read_sign signed or_text strip
strtod text = let value = strip text in or_text value (read_double value)

-- half to even, as Python's `round`
unfoldable pub round_half : ℕ → ℕ → ℕ
round_half n d =
    let q = n / d in
    let r = n % d in
    if ltb (r + r) d then q else if ltb d (r + r) then q + 1 else if q % 2 == 0 then q else q + 1

unfoldable pub round_decimal : Decimal → ℤ
unfolding round_half signed
round_decimal d =
    signed d.negative
      (elim d.exponent [ pos e ↦ d.digits * 10 ^ e | negsuc e ↦ round_half d.digits (10 ^ suc e) ])

-- the first character is `.`, `e` or `E`
unfoldable pub floats_on : Text → Bool
floats_on [] = false
floats_on (c ∷ s) = (c == b'.') || (c == b'e') || (c == b'E')

-- Without a base unit a value that has a unit is not converted.
finish_int : Option ℤ × Text → Option ℤ
finish_int (val, unit) = if non_empty (strip unit) then none else val

finish_double : Option Decimal × Text → Option ℤ
finish_double (none, unit) = none
finish_double (some d, unit) = if non_empty (strip unit) then none else some (round_decimal d)

parse_number : Text → Option ℤ
parse_number text =
    let (val, unit) = strtol text true in
    if floats_on unit then finish_double (strtod text) else finish_int (val, unit)

parse_text : Option Text → Option ℤ
parse_text none = none
parse_text (some text) = parse_number text

-- `parse_int(value)`
unfoldable pub parse_int : Value → Option ℤ
unfolding parse_text parse_number strtol strtod floats_on finish_int finish_double round_decimal
    scalar_str
parse_int value = parse_text (scalar_str value)
