-- ===== src/Postgresql/History.antt =====
-- `parse_history` and `format_lsn` of postgresql/misc.py: the history of the timelines of a primary.
use otus_hightload.Prelude.{
  ℕ, ◌+◌, ◌-◌, ◌/◌, ◌%◌, zero, suc, Bool, true, false, ltb, ◌==◌, Option, none, some, List, [], ◌∷◌,
  ◌++◌, length, if◌then◌else◌,
}
use otus_hightload.Prelude.Int.{ℤ, pos, negsuc}
use otus_hightload.Prelude.Text.{Text, strip, split}
use otus_hightload.Postgresql.Misc.{int_of, parse_lsn}

-- a line of the history: where a timeline ended
pub record Line : Type 0 where
  pub timeline : ℤ
  pub switchpoint : ℤ
  pub reason : Text

line_of : Option ℤ → Option ℤ → Text → Option Line
line_of (some timeline) (some lsn) reason =
    some (record { timeline = timeline; switchpoint = lsn; reason = reason })
line_of _ _ reason = none

line_values : List Text → Option Line
line_values (timeline ∷ lsn ∷ reason ∷ []) = line_of (int_of 10 timeline) (parse_lsn lsn) reason
line_values _ = none

unfoldable pub with_line : Option Line → List Line → List Line
with_line none lines = lines
with_line (some line) lines = line ∷ lines

unfoldable pub parse_lines : List Text → List Line
unfolding line_values line_of
parse_lines [] = []
parse_lines (line ∷ rest) = with_line (line_values (split b'\t' (strip line))) (parse_lines rest)

-- A line that cannot be read is left out.
unfoldable pub parse_history : Text → List Line
parse_history history = parse_lines (split b'\n' history)

hex_digit : ℕ → ℕ
hex_digit n = if ltb n 10 then 48 + n else 55 + n

-- the digits of `n` in base 16, before `acc`; `fuel` above `n` is enough
print_hex : ℕ → ℕ → Text → Text
print_hex zero n acc = acc
print_hex (suc fuel) n acc =
    let acc' = hex_digit (n % 16) ∷ acc in
    let rest = print_hex fuel (n / 16) acc' in if n / 16 == 0 then acc' else rest

-- `{:X}` of a number that is not negative
unfoldable pub hex : ℕ → Text
unfolding print_hex hex_digit
hex n = print_hex (suc n) n []

zeros : ℕ → Text
zeros zero = []
zeros (suc n) = b'0' ∷ zeros n

low_hex : Bool → ℕ → Text
low_hex true n = zeros (8 - length (hex n)) ++ hex n
low_hex false n = hex n

unfoldable pub format_lsn : ℤ → Bool → Text
unfolding low_hex zeros
format_lsn (pos n) full = hex (n / 4294967296) ++ (b'/' ∷ low_hex full (n % 4294967296))
format_lsn (negsuc n) full =
    (b'-' ∷ hex (n / 4294967296 + 1)) ++ (b'/' ∷ low_hex full (4294967295 - n % 4294967296))
